-- ===== src/Relay/Chunk.antt =====
-- internal/relay/chunk.go: a file is fetched in chunks by one worker for each source. The workers run
-- at the same time; each call on the plan is under its mutex, so a run is a list of events.
-- `pending` is a stack whose top is the head. `popped` and `ended` are the chunks that a worker has
-- before `begin` and after `end`, outside the plan's mutex. `written` is what is credited: the chunks
-- whose bytes are done; a fetch that fails may have written bytes too, which are fetched again.
-- Offsets are natural numbers: no file of the relay has a negative size.
pub mod Cover
pub mod Split
pub mod Workers
pub mod Tests
use auto_mas_runtime.Base.{
  ℕ, zero, suc, ◌+◌, ◌-◌, Bool, true, false, not, ◌&&◌, List, [], ◌∷◌, ◌++◌, Option, none, some,
  Bytes, any, bytes_eq, ltb, leb, ◌==◌, if◌then◌else◌,
}

-- A closed range of bytes.
pub record Chunk : Type 0 where
  pub start : ℕ
  pub end : ℕ

abbrev pub chunk_length : Chunk → ℕ
chunk_length c = c.end + 1 - c.start

abbrev pub piece : ℕ → ℕ → Chunk
piece start end = record { start = start; end = end }

-- The loop of `tryChunked` that splits a file, on fuel: the size is enough.
unfoldable pub split_loop : ℕ → ℕ → ℕ → ℕ → List Chunk
split_loop zero start size chunk_size = []
split_loop (suc fuel) start size chunk_size =
    let rest = split_loop fuel (start + chunk_size) size chunk_size in
    let end = start + chunk_size - 1 in
    if ltb start size then piece start (if leb size end then size - 1 else end) ∷ rest else []

-- The chunks of a file, the first on top of the stack.
abbrev pub split_file : ℕ → ℕ → List Chunk
split_file size chunk_size = split_loop size 0 size chunk_size

pub record ChunkPlan : Type 0 where
  pub pending : List Chunk
  pub popped : List (Bytes × Chunk)
  pub inflight : List (Bytes × Chunk)
  pub ended : List (Bytes × Chunk)
  pub failed : List Bytes
  pub slow : List Bytes
  pub completed : ℕ
  pub written : List Chunk

abbrev pub has_key : Bytes → List Bytes → Bool
has_key key = any (λ k. bytes_eq k key)

unfoldable pub find_inflight : Bytes → List (Bytes × Chunk) → Option Chunk
find_inflight key [] = none
find_inflight key ((k, c) ∷ rest) = if bytes_eq k key then some c else find_inflight key rest

-- `delete(p.inflight, key)`.
unfoldable pub end_inflight : Bytes → List (Bytes × Chunk) → List (Bytes × Chunk)
end_inflight key [] = []
end_inflight key ((k, c) ∷ rest) =
    let others = end_inflight key rest in if bytes_eq k key then rest else (k, c) ∷ others

-- `pop`: the worker of a source takes the next chunk off the stack. A worker that has a chunk does not
-- come for another.
unfoldable pub pop : Bytes → ChunkPlan → ChunkPlan
pop key p = elim (find_inflight key p.popped) [
  | some c ↦ p
  | none ↦ elim p.pending [
    | [] ↦ p
    | c ∷ rest ↦ record p { pending = rest; popped = (key, c) ∷ p.popped }
  ]
]

-- `begin`: the chunk of a worker is in flight. Its source has no other chunk in flight, since one worker
-- fetches from it.
unfoldable pub begin : Bytes → ChunkPlan → ChunkPlan
begin key p = elim (find_inflight key p.popped) [
  | none ↦ p
  | some c ↦ elim (find_inflight key p.inflight) [
    | some d ↦ p
    | none ↦ record p { popped = end_inflight key p.popped; inflight = (key, c) ∷ p.inflight }
  ]
]

-- `end`: the chunk is in flight no more; its worker still has it.
unfoldable pub end_fetch : Bytes → ChunkPlan → ChunkPlan
end_fetch key p = elim (find_inflight key p.inflight) [
  | none ↦ p
  | some c ↦ record p { inflight = end_inflight key p.inflight; ended = (key, c) ∷ p.ended }
]

-- What became of a fetch: all bytes came, or it stopped with an outcome after some bytes. `cancelled`
-- is `ctx.Err() != nil` after it.
pub data Fetch : Type 0 where
  fetched : Fetch
  broke_off : (received : ℕ) → (cancelled : Bool) → Fetch

-- The bytes that the worker of a slow source has written, and the rest of its chunk back on the stack. The
-- relay reads no more bytes than the chunk has.
unfoldable pub hand_back : Chunk → ℕ → ChunkPlan → ChunkPlan
hand_back c received p =
    if received == 0
    then record p { pending = c ∷ p.pending }
    else if ltb received (chunk_length c)
    then record p {
      written = piece c.start (c.start + received - 1) ∷ p.written;
      pending = piece (c.start + received) c.end ∷ p.pending;
    }
    else record p { written = c ∷ p.written }

-- The end of a worker's round, on the chunk that it had in flight.
unfoldable pub settle_chunk : Bytes → Chunk → Fetch → ChunkPlan → ChunkPlan
settle_chunk key c fetched p = record p { written = c ∷ p.written; completed = p.completed + 1 }
settle_chunk key c (broke_off received cancelled) p =
    if has_key key p.slow && not cancelled
    then hand_back c received p
    else record p { pending = c ∷ p.pending; failed = key ∷ p.failed }

-- What follows `end` in `chunkWorker`.
unfoldable pub settle : Bytes → Fetch → ChunkPlan → ChunkPlan
settle key fetch p = elim (find_inflight key p.ended) [
  | none ↦ p
  | some c ↦ settle_chunk key c fetch (record p { ended = end_inflight key p.ended })
]

-- `demoteLaggards` and `demoteTailLaggard` mark a source that is in flight.
unfoldable pub demote : Bytes → ChunkPlan → ChunkPlan
demote key p = elim (find_inflight key p.inflight) [
  | none ↦ p
  | some c ↦ if has_key key p.slow then p else record p { slow = key ∷ p.slow }
]

-- `settles` is one event for the calls that `chunkWorker` makes after `end`: whether the source is slow,
-- then `complete` or `push` and `markFailed`. Another worker cannot change what they do to the chunk in
-- between, since a source is marked as slow only while it is in flight.
pub data Event : Type 0 where
  pops : Bytes → Event
  begins : Bytes → Event
  ends : Bytes → Event
  settles : Bytes → Fetch → Event
  demotes : Bytes → Event

unfoldable pub step : Event → ChunkPlan → ChunkPlan
step (pops key) p = pop key p
step (begins key) p = begin key p
step (ends key) p = end_fetch key p
step (settles key fetch) p = settle key fetch p
step (demotes key) p = demote key p

unfoldable pub play : List Event → ChunkPlan → ChunkPlan
play [] p = p
play (e ∷ events) p = play events (step e p)

unfoldable pub start_plan : ℕ → ℕ → ChunkPlan
start_plan size chunk_size = record {
  pending = split_file size chunk_size;
  popped = [];
  inflight = [];
  ended = [];
  failed = [];
  slow = [];
  completed = 0;
  written = [];
}
