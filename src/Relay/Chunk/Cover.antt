-- ===== src/Relay/Chunk/Cover.antt =====
-- How many chunks of a list hold a byte.
use auto_mas_runtime.Base.{
  ℕ, ◌+◌, ◌≡◌, ap, ◌&&◌, List, [], ◌∷◌, some, Bytes, leb, bytes_eq, if◌then◌else◌, arith,
  Bool-cases, inl, inr,
}
use auto_mas_runtime.Relay.Chunk.{Chunk, find_inflight, end_inflight}

abbrev pub held : ℕ → Chunk → ℕ
held x c = if leb c.start x && leb x c.end then 1 else 0

abbrev pub cover : ℕ → List Chunk → ℕ
cover x [] = 0
cover x (c ∷ l) = held x c + cover x l

abbrev pub flying : ℕ → List (Bytes × Chunk) → ℕ
flying x [] = 0
flying x ((k, c) ∷ l) = held x c + flying x l

pub flying-end :
    (x : ℕ) (key : Bytes) (c : Chunk) (l : List (Bytes × Chunk))
    → find_inflight key l ≡ some c
    → flying x l ≡ held x c + flying x (end_inflight key l)
unfolding find_inflight end_inflight
flying-end x key c [] h = cc
flying-end x key c ((k, d) ∷ l) h = elim (Bool-cases (bytes_eq k key)) [
  | inl e ↦
      let same : d ≡ c = ground (arith, h) in
      ground (arith, ap (λ y. y.start) same, ap (λ y. y.end) same)
  | inr e ↦ ground (arith, h, flying-end x key c l)
]
