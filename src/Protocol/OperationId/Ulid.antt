-- ===== src/Protocol/OperationId/Ulid.antt =====
-- A new operation id is a valid ULID that spells its time stamp and its entropy.
use auto_mas_runtime.Base.{
  ℕ, ◌+◌, ◌*◌, ◌/◌, ◌%◌, ◌^◌, ◌≤◌, ◌<◌, ◌≡◌, refl, true, [], Bytes, length, All, arith, ap, ◌∙◌,
  some,
}
use auto_mas_runtime.Base.Int.{pos}
use auto_mas_runtime.Protocol.OperationId.{
  letter, set_bytes, time_bytes, encode, valid_operation_id, id, new_operation_id,
  operation_id_length,
}
use auto_mas_runtime.Protocol.OperationId.Digits.{
  decode, decode-encode, set_bytes-time_bytes, set_bytes_split, set_bytes_bound, head-encode,
  all-encode, length-encode,
}

letter_below_8 : (d : ℕ) → d < 8 → letter d ≤ b'7'
unfolding letter
letter_below_8 d h = ground arith

-- 26 letters of a number below 2^128 are a valid id.
encode-valid : (v : ℕ) → v < 2 ^ 128 → valid_operation_id (encode operation_id_length v []) ≡ true
unfolding valid_operation_id
encode-valid v h = ground (
  arith,
  length-encode 26 v [],
  all-encode 26 v [] refl,
  head-encode 25 v [],
  letter_below_8 (v / 32 ^ 25 % 32) (omega arith),
)

number_of :
    (ms : ℕ) (random : Bytes)
    → ms < 2 ^ 48
    → set_bytes 0 (time_bytes 6 ms random) ≡ set_bytes ms random
number_of ms random h =
    set_bytes-time_bytes 6 0 ms random ∙ ap (λ n. set_bytes n random) (omega arith)

number_bound :
    (ms : ℕ) (random : Bytes)
    → ms < 2 ^ 48
    → length random ≡ 10
    → All (λ b. b < 256) random
    → (set_bytes ms random ≡ ms * 2 ^ 80 + set_bytes 0 random) × (set_bytes 0 random < 2 ^ 80)
number_bound ms random h l bs =
    let p : 256 ^ length random ≡ 2 ^ 80 = ap (λ n. 256 ^ n) l in
    (rw (← p) (set_bytes_split ms random), rw (← p) (set_bytes_bound random bs))

decoded : (v : ℕ) → v < 2 ^ 128 → decode 0 (encode operation_id_length v []) ≡ v
unfolding decode
decoded v h = decode-encode 26 0 v [] ∙ omega arith

-- A time stamp of 48 bits and ten bytes of entropy give an id that passes `validOperationID`; the
-- number that its letters spell has the time stamp above bit 80 and the entropy below.
pub new_operation_id_lem :
    (ms : ℕ) (random : Bytes)
    → ms < 2 ^ 48
    → length random ≡ 10
    → All (λ b. b < 256) random
    → (value : Bytes) × (new_operation_id (pos ms) (some random) ≡ id value)
      × (valid_operation_id value ≡ true)
      × (decode 0 value / 2 ^ 80 ≡ ms)
      × (decode 0 value % 2 ^ 80 ≡ set_bytes 0 random)
unfolding new_operation_id
new_operation_id_lem ms random h l bs =
    let (split, bound) = number_bound ms random h l bs in
    let v = set_bytes ms random in
    let spelled : decode 0 (encode operation_id_length v []) ≡ v = decoded v (omega arith) in
    (
      encode operation_id_length v [],
      rw (number_of ms random h) (ground arith),
      encode-valid v (omega arith),
      rw spelled (omega arith),
      rw spelled (omega arith),
    )
