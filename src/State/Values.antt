-- ===== src/State/Values.antt =====
-- internal/state/validation.go: the tests of the texts in a state file.
use auto_mas_runtime.Base.{
  ℕ, Bool, false, not, ◌&&◌, ◌||◌, Bytes, codes, all, any, drop, length, get_or, ltb, leb, ◌==◌,
  if◌then◌else◌,
}
use auto_mas_runtime.Base.Strings.{contains, has_suffix}

-- `strings.ContainsRune(ulidAlphabet, rune(value[i]))`.
unfoldable pub in_alphabet : ℕ → Bool
in_alphabet c = any (λ letter. letter == c) (codes "0123456789ABCDEFGHJKMNPQRSTVWXYZ")

-- `validateOperationID(value) == nil`.
unfoldable pub validate_operation_id : Bytes → Bool
validate_operation_id value =
    if not (length value == 26) || ltb b'7' (get_or value 0 0) then false else all in_alphabet value

abbrev pub is_ascii_alphanumeric : ℕ → Bool
is_ascii_alphanumeric ch =
    leb b'0' ch && leb ch b'9' || (leb b'A' ch && leb ch b'Z' || leb b'a' ch && leb ch b'z')

-- A byte that the loops over versions let pass.
abbrev pub version_character : ℕ → Bool
version_character ch =
    not (
      not (is_ascii_alphanumeric ch)
      && (not (ch == b'.') && (not (ch == b'-') && not (ch == b'_'))))

abbrev pub refused_text : Bytes → Bool
refused_text value =
    contains (codes "..") value
    || contains (codes "@{") value
    || has_suffix (codes ".") value
    || has_suffix (codes ".lock") value

-- `validateProductVersion(value) == nil`.
unfoldable pub validate_product_version : Bytes → Bool
validate_product_version value =
    if ltb (length value) 2 || (ltb 128 (length value) || not (get_or value 0 0 == b'v'))
    then false
    else if refused_text value
    then false
    else all version_character (drop 1 value)

-- `validateToolVersion(value) == nil`.
unfoldable pub validate_tool_version : Bytes → Bool
validate_tool_version value =
    if length value == 0 || (ltb 128 (length value) || refused_text value)
    then false
    else all version_character value

-- `validateCommit(value) == nil`.
unfoldable pub validate_commit : Bytes → Bool
validate_commit value =
    if not (length value == 40)
    then false
    else all (λ ch. not ((ltb ch b'0' || ltb b'9' ch) && (ltb ch b'a' || ltb b'f' ch))) value
