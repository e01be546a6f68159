-- ===== src/State/Agree.antt =====
-- internal/state repeats tests that other packages have too: they accept the same texts.
use auto_mas_runtime.Base.{
  ℕ, ◌≡◌, refl, Bool, true, not, ◌&&◌, ◌||◌, [], ◌∷◌, Bytes, codes, all, any, length, ltb, leb,
  ◌==◌, arith,
}
use auto_mas_runtime.Base.Strings.{has_prefix, after_prefix}
use auto_mas_runtime.Protocol.OperationId.{valid_operation_id, is_ulid_character}
use auto_mas_runtime.Mirror.Target.{valid_version_value, version_byte}
use auto_mas_runtime.Mirror.Report.{valid_git_commit}
use auto_mas_runtime.State.Values.{
  in_alphabet, validate_operation_id, validate_product_version, validate_tool_version,
  validate_commit, version_character,
}

-- Tests that agree on every byte agree on every text.
all_agree : (p q : ℕ → Bool) → ((c : ℕ) → p c ≡ q c) → (s : Bytes) → all p s ≡ all q s
all_agree p q h [] = refl
all_agree p q h (c ∷ s) = rw (h c, all_agree p q h s) refl

any_swap : (c : ℕ) (s : Bytes) → any (λ x. x == c) s ≡ any (λ x. c == x) s
any_swap c [] = refl
any_swap c (x ∷ s) = ground (arith, any_swap c s)

same_letter : (c : ℕ) → in_alphabet c ≡ is_ulid_character c
unfolding in_alphabet is_ulid_character
same_letter c = any_swap c (codes "0123456789ABCDEFGHJKMNPQRSTVWXYZ")

operation_ids_agree : (v : Bytes) → validate_operation_id v ≡ valid_operation_id v
unfolding validate_operation_id valid_operation_id
operation_ids_agree v = rw (all_agree in_alphabet is_ulid_character same_letter v) refl

same_hex :
    (c : ℕ)
    → not ((ltb c b'0' || ltb b'9' c) && (ltb c b'a' || ltb b'f' c))
      ≡ (leb b'0' c && leb c b'9' || leb b'a' c && leb c b'f')
same_hex c = ground arith

commits_agree : (v : Bytes) → validate_commit v ≡ valid_git_commit v
unfolding validate_commit valid_git_commit
commits_agree v = rw (all_agree _ _ same_hex v) refl

same_version_byte : (c : ℕ) → version_character c ≡ version_byte c
same_version_byte c = ground arith

tool_versions_agree : (v : Bytes) → validate_tool_version v ≡ valid_version_value v
unfolding validate_tool_version valid_version_value
tool_versions_agree [] = refl
tool_versions_agree (c ∷ v) =
    rw (all_agree version_character version_byte same_version_byte (c ∷ v)) (ground arith)

letter_v : (c : ℕ) → (c == b'v') ≡ true → version_byte c ≡ true
letter_v c h = ground arith

prefix_v : (c : ℕ) (v : Bytes) → has_prefix (codes "v") (c ∷ v) ≡ (c == b'v')
unfolding after_prefix
prefix_v c v = ground arith

-- Where the state asks for a product version, the mirror asks for a version with a `v` in front; a
-- `v` alone passes only there.
product_versions_agree :
    (v : Bytes)
    → validate_product_version v
      ≡ (valid_version_value v && (has_prefix (codes "v") v && ltb 1 (length v)))
unfolding validate_product_version valid_version_value
product_versions_agree [] = refl
product_versions_agree (c ∷ v) =
    rw (all_agree version_character version_byte same_version_byte v)
      (ground (arith, letter_v c, prefix_v c v))

-- The state accepts the same operation ids as the protocol, the same commits as a rotation and the
-- same tool versions as a target; a product version is one that a target accepts, with a `v` in
-- front and something behind it.
pub validators_agree :
    (v : Bytes)
    → (validate_operation_id v ≡ valid_operation_id v)
      × (validate_commit v ≡ valid_git_commit v)
      × (validate_tool_version v ≡ valid_version_value v)
      × (validate_product_version v
          ≡ (valid_version_value v && (has_prefix (codes "v") v && ltb 1 (length v))))
validators_agree v =
    (operation_ids_agree v, commits_agree v, tool_versions_agree v, product_versions_agree v)
