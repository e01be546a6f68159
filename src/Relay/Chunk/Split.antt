-- ===== src/Relay/Chunk/Split.antt =====
-- The chunks of a file hold each of its bytes once, and no other byte.
use auto_mas_runtime.Base.{
  ℕ, zero, suc, ◌+◌, ◌-◌, ◌≤◌, ◌<◌, ◌≡◌, ◌&&◌, leb, ltb, if◌then◌else◌, arith, Bool-cases, inl, inr,
}
use auto_mas_runtime.Relay.Chunk.{piece, split_loop}
use auto_mas_runtime.Relay.Chunk.Cover.{held, cover}

abbrev pub in_range : ℕ → ℕ → ℕ → ℕ
in_range x start size = if leb start x && ltb x size then 1 else 0

split_once :
    (x start size chunk_size : ℕ)
    → 0 < chunk_size
    → start < size
    → held x (
          piece start
            (if leb size (start + chunk_size - 1) then size - 1 else start + chunk_size - 1))
        + in_range x (start + chunk_size) size
      ≡ in_range x start size
split_once x start size chunk_size pos h = ground arith

pub split_loop-cover :
    (x fuel start size chunk_size : ℕ)
    → 0 < chunk_size
    → size ≤ start + fuel
    → cover x (split_loop fuel start size chunk_size) ≡ in_range x start size
unfolding split_loop
split_loop-cover x zero start size chunk_size pos h = ground arith
split_loop-cover x (suc fuel) start size chunk_size pos h = elim (Bool-cases (ltb start size)) [
  | inl e ↦
      rw
        (
          e,
          split_loop-cover x fuel (start + chunk_size) size chunk_size pos (omega (arith, pos, h)),
        )
        (split_once x start size chunk_size pos (ground (arith, e)))
  | inr e ↦ rw e (ground arith)
]
