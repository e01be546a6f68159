-- ===== src/Version.antt =====
-- internal/version/product.go: the branch of the backend that belongs to a product version.
use auto_mas_runtime.Base.{
  Bool, false, not, ◌&&◌, ◌||◌, List, [], ◌∷◌, ◌++◌, none, some, Bytes, codes, all, ltb, ◌==◌,
  if◌then◌else◌, is_empty, length,
}
use auto_mas_runtime.Base.Strings.{has_prefix, trim_prefix, cut, split}

-- `value[0] == '0'`.
abbrev starts_zero : Bytes → Bool
starts_zero [] = false
starts_zero (c ∷ s) = c == b'0'

unfoldable pub canonical_number : Bytes → Bool
canonical_number value =
    if is_empty value || (ltb 1 (length value) && starts_zero value)
    then false
    else all (λ c. not (ltb c b'0' || ltb b'9' c)) value

abbrev three_numbers : List Bytes → Bool
three_numbers (a ∷ b ∷ c ∷ []) = canonical_number a && (canonical_number b && canonical_number c)
three_numbers _ = false

unfoldable pub product_branch : Bytes → Bytes
product_branch product_version =
    let release = codes "release/" ++ product_version in
    elim (cut (codes "-alpha.") product_version) [
      | none ↦ release
      | some (base, run) ↦
          if has_prefix (codes "v") base && canonical_number run
          then (if three_numbers (split b'.' (trim_prefix (codes "v") base))
              then codes "dev"
              else release)
          else release
    ]
