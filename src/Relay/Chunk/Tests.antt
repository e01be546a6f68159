-- ===== src/Relay/Chunk/Tests.antt =====
-- A file of ten bytes in chunks of four. The source `b` is slow, and `a` ends its chunk.
use auto_mas_runtime.Base.{◌≡◌, refl, false, List, [], ◌∷◌, Bytes, codes, bytes_eq, arith}
use auto_mas_runtime.Relay.Chunk.{
  piece, split_loop, find_inflight, end_inflight, pop, begin, end_fetch, fetched, broke_off,
  hand_back, settle_chunk, settle, demote, Event, pops, begins, ends, settles, demotes, step, play,
  start_plan,
}
use auto_mas_runtime.Relay.Chunk.Workers.{total, each_byte_once}

abbrev a : Bytes
a = codes "a"

abbrev b : Bytes
b = codes "b"

abbrev events : List Event
events =
    pops a
    ∷ pops b
    ∷ begins b
    ∷ begins a
    ∷ ends a
    ∷ demotes b
    ∷ settles a fetched
    ∷ ends b
    ∷ settles b (broke_off 1 false)
    ∷ pops a
    ∷ begins a
    ∷ ends a
    ∷ settles a (broke_off 2 false)
    ∷ pops a
    ∷ []

each_byte_once_example : total 5 (play events (start_plan 10 4)) ≡ 1
each_byte_once_example = each_byte_once 5 10 4 events (omega arith)

-- The worker of `a`, whose fetch of the rest of the second chunk failed, has it again.
popped_again : (play events (start_plan 10 4)).popped ≡ (a, piece 5 7) ∷ []
unfolding play start_plan split_loop step pop begin end_fetch settle settle_chunk hand_back
    find_inflight end_inflight bytes_eq demote
popped_again = refl

last_pending : (play events (start_plan 10 4)).pending ≡ piece 8 9 ∷ []
unfolding play start_plan split_loop step pop begin end_fetch settle settle_chunk hand_back
    find_inflight end_inflight bytes_eq demote
last_pending = refl
