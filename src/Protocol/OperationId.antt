-- ===== src/Protocol/OperationId.antt =====
-- internal/protocol/operation_id.go: a ULID, 26 letters of base 32 for a number of 128 bits. The
-- entropy source is a parameter: the bytes that `io.ReadFull` read, or `none` for its error.
mod Digits
pub mod Ulid
mod Tests
use auto_mas_runtime.Base.{
  ℕ, zero, suc, ◌+◌, ◌-◌, ◌*◌, ◌/◌, ◌%◌, ◌^◌, Bool, true, false, ◌||◌, not, List, [], ◌∷◌, ◌++◌,
  Option, none, some, Bytes, codes, length, all, any, ltb, get_or, ◌==◌, if◌then◌else◌,
}
use auto_mas_runtime.Base.Int.{ℤ, pos, negsuc}

abbrev pub operation_id_length : ℕ
operation_id_length = 26

abbrev pub ulid_alphabet : Bytes
ulid_alphabet = codes "0123456789ABCDEFGHJKMNPQRSTVWXYZ"

unfoldable pub is_ulid_character : ℕ → Bool
is_ulid_character value = any (λ c. value == c) ulid_alphabet

unfoldable pub valid_operation_id : Bytes → Bool
valid_operation_id value =
    if not (length value == operation_id_length) || ltb b'7' (get_or value 0 0)
    then false
    else all is_ulid_character value

-- `ulidAlphabet[d]`; `d` is a remainder by 32.
unfoldable pub letter : ℕ → ℕ
letter d = get_or ulid_alphabet d 0

-- `SetBytes`: the number that the bytes spell, the first the most significant.
unfoldable pub set_bytes : ℕ → Bytes → ℕ
set_bytes acc [] = acc
set_bytes acc (x ∷ xs) = set_bytes (acc * 256 + x) xs

-- The loop over `data[5]` to `data[0]`; `rest` stands behind the places still to be filled.
unfoldable pub time_bytes : ℕ → ℕ → Bytes → Bytes
time_bytes zero milliseconds rest = rest
time_bytes (suc i) milliseconds rest = time_bytes i (milliseconds / 256) (milliseconds % 256 ∷ rest)

-- The loop over `encoded[25]` to `encoded[0]`.
unfoldable pub encode : ℕ → ℕ → Bytes → Bytes
encode zero value rest = rest
encode (suc i) value rest = encode i (value / 32) (letter (value % 32) ∷ rest)

pub data IdError : Type 0 where
  timestamp_range no_entropy : IdError

pub data IdResult : Type 0 where
  id : Bytes → IdResult
  failed : IdError → IdResult

-- `newOperationID` at `now.UnixMilli()`, with the ten bytes that were read.
unfoldable pub new_operation_id : ℤ → Option Bytes → IdResult
new_operation_id (negsuc n) random = failed timestamp_range
new_operation_id (pos milliseconds) none =
    if ltb (2 ^ 48 - 1) milliseconds then failed timestamp_range else failed no_entropy
new_operation_id (pos milliseconds) (some random) =
    if ltb (2 ^ 48 - 1) milliseconds
    then failed timestamp_range
    else id (encode operation_id_length (set_bytes 0 (time_bytes 6 milliseconds random)) [])
