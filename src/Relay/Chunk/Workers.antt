-- ===== src/Relay/Chunk/Workers.antt =====
-- Whatever the workers do and in whichever order, each byte of the file is in exactly one chunk of those
-- that wait, that a worker has, and that are done. A chunk that breaks off may be fetched again.
use auto_mas_runtime.Base.{
  ℕ, ◌+◌, ◌-◌, ◌<◌, ◌≡◌, refl, ap, ◌∙◌, true, false, not, ◌&&◌, List, [], ◌∷◌, Bytes, ltb, ◌==◌,
  if◌then◌else◌, arith, Bool-cases, Option-cases, inl, inr,
}
use auto_mas_runtime.Relay.Chunk.{
  Chunk, piece, chunk_length, ChunkPlan, has_key, find_inflight, end_inflight, pop, begin,
  end_fetch, Fetch, fetched, broke_off, hand_back, settle_chunk, settle, demote, Event, pops,
  begins, ends, settles, demotes, step, play, start_plan,
}
use auto_mas_runtime.Relay.Chunk.Cover.{held, cover, flying, flying-end}
use auto_mas_runtime.Relay.Chunk.Split.{split_loop-cover}

-- How often a byte is to be fetched, is in the hands of a worker, or was written and credited.
abbrev pub total : ℕ → ChunkPlan → ℕ
total x p =
    cover x p.pending
    + (flying x p.popped + flying x p.inflight + flying x p.ended)
    + cover x p.written

held_apart :
    (x start end received : ℕ)
    → (received == 0) ≡ false
    → ltb received (end + 1 - start) ≡ true
    → held x (piece start (start + received - 1)) + held x (piece (start + received) end)
      ≡ held x (piece start end)
held_apart x start end received h k = ground arith

total-hand_back :
    (x : ℕ) (c : Chunk) (received : ℕ) (p : ChunkPlan)
    → total x (hand_back c received p) ≡ held x c + total x p
unfolding hand_back
total-hand_back x c received p = elim (Bool-cases (received == 0)) [
  | inl e ↦ rw e (omega arith)
  | inr e ↦ elim (Bool-cases (ltb received (chunk_length c))) [
    | inl f ↦ rw (e, f) (omega (arith, held_apart x c.start c.end received e f))
    | inr f ↦ rw (e, f) (omega arith)
  ]
]

total-settle_chunk :
    (x : ℕ) (key : Bytes) (c : Chunk) (fetch : Fetch) (p : ChunkPlan)
    → total x (settle_chunk key c fetch p) ≡ held x c + total x p
unfolding settle_chunk
total-settle_chunk x key c fetched p = omega arith
total-settle_chunk x key c (broke_off received cancelled) p =
    elim (Bool-cases (has_key key p.slow && not cancelled)) [
      | inl e ↦ rw e (total-hand_back x c received p)
      | inr e ↦ rw e (omega arith)
    ]

total-settle :
    (x : ℕ) (key : Bytes) (fetch : Fetch) (p : ChunkPlan) → total x (settle key fetch p) ≡ total x p
unfolding settle
total-settle x key fetch p = elim (Option-cases (find_inflight key p.ended)) [
  | inl e ↦ rw (settle, e) refl
  | inr (c, e) ↦
      rw (settle, e)
        (omega (
          arith,
          total-settle_chunk x key c fetch (record p { ended = end_inflight key p.ended }),
          flying-end x key c p.ended e,
        ))
]

total-pop : (x : ℕ) (key : Bytes) (p : ChunkPlan) → total x (pop key p) ≡ total x p
unfolding pop
total-pop x key p = elim (Option-cases (find_inflight key p.popped)) [
  | inr (c, e) ↦ rw (pop, e) refl
  | inl e ↦ rw (pop, e) (from_stack p.pending refl)
]
  where
    from_stack :
        (stack : List Chunk)
        → p.pending ≡ stack
        → total x (elim stack [
          | [] ↦ p
          | c ∷ rest ↦ record p { pending = rest; popped = (key, c) ∷ p.popped }
        ])
          ≡ total x p
    from_stack [] e = refl
    from_stack (c ∷ rest) e = omega (arith, ap (cover x) e)

total-begin : (x : ℕ) (key : Bytes) (p : ChunkPlan) → total x (begin key p) ≡ total x p
unfolding begin
total-begin x key p = elim (Option-cases (find_inflight key p.popped)) [
  | inl e ↦ rw (begin, e) refl
  | inr (c, e) ↦ elim (Option-cases (find_inflight key p.inflight)) [
    | inr (d, f) ↦ rw (begin, e, f) refl
    | inl f ↦ rw (begin, e, f) (omega (arith, flying-end x key c p.popped e))
  ]
]

total-end_fetch : (x : ℕ) (key : Bytes) (p : ChunkPlan) → total x (end_fetch key p) ≡ total x p
unfolding end_fetch
total-end_fetch x key p = elim (Option-cases (find_inflight key p.inflight)) [
  | inl e ↦ rw (end_fetch, e) refl
  | inr (c, e) ↦ rw (end_fetch, e) (omega (arith, flying-end x key c p.inflight e))
]

total-demote : (x : ℕ) (key : Bytes) (p : ChunkPlan) → total x (demote key p) ≡ total x p
unfolding demote
total-demote x key p = elim (Option-cases (find_inflight key p.inflight)) [
  | inl e ↦ rw (demote, e) refl
  | inr (c, e) ↦ elim (Bool-cases (has_key key p.slow)) [
    | inl f ↦ rw (demote, e, f) refl
    | inr f ↦ rw (demote, e, f) refl
  ]
]

total-step : (x : ℕ) (e : Event) (p : ChunkPlan) → total x (step e p) ≡ total x p
unfolding step
total-step x (pops key) p = total-pop x key p
total-step x (begins key) p = total-begin x key p
total-step x (ends key) p = total-end_fetch x key p
total-step x (settles key fetch) p = total-settle x key fetch p
total-step x (demotes key) p = total-demote x key p

total-play : (x : ℕ) (events : List Event) (p : ChunkPlan) → total x (play events p) ≡ total x p
unfolding play
total-play x [] p = refl
total-play x (e ∷ events) p = total-play x events (step e p) ∙ total-step x e p

-- With a positive chunk size, after any events in any order, each byte of the file is in exactly one
-- chunk of those that wait, that a worker has before, during or after its flight, and that are written
-- and credited, and no byte beyond the end of the file is in any.
pub each_byte_once :
    (x size chunk_size : ℕ) (events : List Event)
    → 0 < chunk_size
    → total x (play events (start_plan size chunk_size)) ≡ (if ltb x size then 1 else 0)
unfolding start_plan
each_byte_once x size chunk_size events pos =
    total-play x events (start_plan size chunk_size)
    ∙ ground (arith, split_loop-cover x size 0 size chunk_size pos (omega arith))
