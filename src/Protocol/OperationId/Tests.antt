-- ===== src/Protocol/OperationId/Tests.antt =====
-- Operation ids at concrete inputs.
use auto_mas_runtime.Base.{◌/◌, ◌%◌, ◌^◌, ◌≡◌, refl, true, ◌∷◌, [], Bytes, codes, none, some, arith}
use auto_mas_runtime.Base.Int.{pos, negsuc}
use auto_mas_runtime.Protocol.OperationId.{
  id, failed, timestamp_range, no_entropy, set_bytes, time_bytes, encode, letter,
  valid_operation_id, new_operation_id,
}
use auto_mas_runtime.Protocol.OperationId.Digits.{decode}
use auto_mas_runtime.Protocol.OperationId.Ulid.{new_operation_id_lem}

abbrev entropy : Bytes
entropy = 1 ∷ 2 ∷ 3 ∷ 4 ∷ 5 ∷ 6 ∷ 7 ∷ 8 ∷ 9 ∷ 255 ∷ []

new_operation_id_zero :
    new_operation_id (pos 0) (some entropy) ≡ id (codes "0000000000041061050R3GG2FZ")
unfolding new_operation_id encode letter set_bytes time_bytes
new_operation_id_zero = refl

new_operation_id_errors :
    (new_operation_id (negsuc 0) (some entropy) ≡ failed timestamp_range)
    × (new_operation_id (pos (2 ^ 48)) none ≡ failed timestamp_range)
    × (new_operation_id (pos 5) none ≡ failed no_entropy)
unfolding new_operation_id
new_operation_id_errors = (refl, refl, refl)

new_operation_id_lem_example :
    (value : Bytes) × (new_operation_id (pos 1764098675000) (some entropy) ≡ id value)
    × (valid_operation_id value ≡ true)
    × (decode 0 value / 2 ^ 80 ≡ 1764098675000)
    × (decode 0 value % 2 ^ 80 ≡ set_bytes 0 entropy)
new_operation_id_lem_example =
    new_operation_id_lem 1764098675000 entropy (omega arith) refl (omega arith)
