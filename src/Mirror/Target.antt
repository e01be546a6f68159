-- ===== src/Mirror/Target.antt =====
-- internal/mirror/target.go: the fields of a target, which no source of a rotation may change.
-- The printed sha256 of a text is a parameter.
pub mod Valid
pub mod Tests
use auto_mas_runtime.Base.{
  ℕ, ◌≡◌, refl, ap, Bool, true, false, not, ◌&&◌, ◌||◌, List, [], ◌∷◌, ◌++◌, Option, none, some,
  Bytes, codes, all, any, leb, ltb, bytes_eq, bytes_eq_refl, bytes_eq_iff, ◌==◌, if◌then◌else◌,
  is_empty, is_none, length, to_lower,
}
use auto_mas_runtime.Base.Strings.{
  has_prefix, has_suffix, contains, trim_prefix, to_lower_idempotent,
}
use auto_mas_runtime.Version.{product_branch}
use auto_mas_runtime.Mirror.Source.{Kind, git, uv, python, package_index, other, kind_valid}

pub record TargetSpec : Type 0 where
  pub product_version : Bytes
  pub release_branch : Bytes
  pub uv_version : Bytes
  pub python_version : Bytes
  pub lock_digest : Bytes

pub record Target : Type 0 where
  pub spec : TargetSpec  -- the fields that the code repeats one by one
  pub fingerprint : Bytes

abbrev pub version_byte : ℕ → Bool
version_byte c =
    leb b'a' c && leb c b'z'
    || leb b'A' c && leb c b'Z'
    || leb b'0' c && leb c b'9'
    || c == b'.'
    || c == b'-'
    || c == b'_'

unfoldable pub valid_version_value : Bytes → Bool
valid_version_value value =
    if is_empty value
      || ltb 128 (length value)
      || contains (codes "..") value
      || contains (codes "@{") value
      || has_suffix (codes ".") value
      || has_suffix (codes ".lock") value
    then false
    else all version_byte value

-- What `hex.DecodeString` accepts of a text of even length.
abbrev pub hex_byte : ℕ → Bool
hex_byte c = leb b'0' c && leb c b'9' || leb b'a' c && leb c b'f' || leb b'A' c && leb c b'F'

unfoldable pub version_field_ok : Bytes → Bool
version_field_ok value = is_empty value || valid_version_value value

unfoldable pub release_branch_ok : Bytes → Bool
release_branch_ok branch =
    if is_empty branch
    then true
    else if not (bytes_eq branch (codes "dev")) && not (has_prefix (codes "release/") branch)
    then false
    else let branch_version = trim_prefix (codes "release/") branch in
      not (
        not (bytes_eq branch (codes "dev"))
        && (not (valid_version_value branch_version)
            || not (has_prefix (codes "v") branch_version)))

unfoldable pub digest_ok : Bytes → Bool
digest_ok digest = is_empty digest || length digest == 64 && all hex_byte digest

-- `normalizeTargetSpec`; the lower case of an empty digest is empty.
unfoldable pub normalize_target_spec : TargetSpec → Option TargetSpec
unfolding version_field_ok
normalize_target_spec s =
    if is_empty s.product_version
      && is_empty s.release_branch
      && is_empty s.uv_version
      && is_empty s.python_version
      && is_empty s.lock_digest
    then none
    else if not (
        version_field_ok s.product_version
        && version_field_ok s.uv_version
        && version_field_ok s.python_version)
    then none
    else if not (is_empty s.product_version) && not (has_prefix (codes "v") s.product_version)
    then none
    else if not (release_branch_ok s.release_branch)
    then none
    else if not (digest_ok s.lock_digest)
    then none
    else some (record s { lock_digest = to_lower s.lock_digest })

unfoldable pub spec_eq : TargetSpec → TargetSpec → Bool
spec_eq a b =
    bytes_eq a.product_version b.product_version
    && bytes_eq a.release_branch b.release_branch
    && bytes_eq a.uv_version b.uv_version
    && bytes_eq a.python_version b.python_version
    && bytes_eq a.lock_digest b.lock_digest

module _ (sha256_hex : Bytes → Bytes) where
  unfoldable pub target_fingerprint : TargetSpec → Bytes
  target_fingerprint s = sha256_hex (
      codes "product-version="
      ++ (s.product_version
          ++ (10 ∷ codes "release-branch="
              ++ (s.release_branch
                  ++ (10 ∷ codes "uv-version="
                      ++ (s.uv_version
                          ++ (10 ∷ codes "python-version="
                              ++ (s.python_version
                                  ++ (10 ∷ codes "lock-digest=" ++ s.lock_digest)))))))))

  -- `NewTarget`.
  unfoldable pub new_target : TargetSpec → Option Target
  new_target spec = elim (normalize_target_spec spec) [
    | none ↦ none
    | some normalized ↦
        some (record { spec = normalized; fingerprint = target_fingerprint normalized })
  ]

  -- `validateTarget(target) == nil`.
  unfoldable pub validate_target : Target → Bool
  validate_target target = elim (normalize_target_spec target.spec) [
    | none ↦ false
    | some spec ↦
        spec_eq target.spec spec
        && not (is_empty target.fingerprint)
        && bytes_eq target.fingerprint (target_fingerprint spec)
  ]

  -- `Target.ValidateForKind`.
  unfoldable pub validate_for_kind : Target → Kind → Bool
  validate_for_kind t kind =
      if not (kind_valid kind) || not (validate_target t) then false else elim kind [
        | git ↦ not (
            is_empty t.spec.product_version
            || not (bytes_eq t.spec.release_branch (product_branch t.spec.product_version)))
        | uv ↦ not (is_empty t.spec.uv_version)
        | python ↦ not (is_empty t.spec.python_version)
        | package_index ↦ not (is_empty t.spec.lock_digest)
        | other s ↦ true
      ]
