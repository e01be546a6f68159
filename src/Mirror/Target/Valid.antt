-- ===== src/Mirror/Target/Valid.antt =====
-- What `NewTarget` returns is a fixed point of its own normalisation.
use auto_mas_runtime.Base.{
  ℕ, suc, ◌≡◌, refl, ap, Bool, true, false, ◌&&◌, [], ◌∷◌, some, Bytes, all, bytes_eq_refl,
  is_empty, length, to_lower, arith, Option-cases, inl, inr, lower_byte,
}
use auto_mas_runtime.Base.Strings.{to_lower_idempotent}
use auto_mas_runtime.Mirror.Target.{
  TargetSpec, Target, hex_byte, digest_ok, normalize_target_spec, spec_eq, target_fingerprint,
  new_target, validate_target,
}

length-to_lower : (d : Bytes) → length (to_lower d) ≡ length d
unfolding to_lower
length-to_lower [] = refl
length-to_lower (c ∷ d) = ap suc (length-to_lower d)

lower_hex : (c : ℕ) → hex_byte c ≡ true → hex_byte (lower_byte c) ≡ true
lower_hex c h = ground arith

all-to_lower : (d : Bytes) → all hex_byte d ≡ true → all hex_byte (to_lower d) ≡ true
unfolding to_lower
all-to_lower [] h = refl
all-to_lower (c ∷ d) h =
    let (a, b) = both (hex_byte c) (all hex_byte d) h in
    both_true (hex_byte (lower_byte c)) (all hex_byte (to_lower d)) (lower_hex c a)
      (all-to_lower d b)
  where
    both : (x y : Bool) → (x && y) ≡ true → (x ≡ true) × (y ≡ true)
    both x y h = (ground arith, ground arith)

    both_true : (x y : Bool) → x ≡ true → y ≡ true → (x && y) ≡ true
    both_true x y h k = ground arith

digest_ok-to_lower : (d : Bytes) → digest_ok d ≡ true → digest_ok (to_lower d) ≡ true
unfolding digest_ok to_lower
digest_ok-to_lower [] h = refl
digest_ok-to_lower (c ∷ d) h = ground (arith, length-to_lower (c ∷ d), all-to_lower (c ∷ d))

empty_lower : (d : Bytes) → is_empty (to_lower d) ≡ is_empty d
unfolding to_lower
empty_lower [] = refl
empty_lower (c ∷ d) = refl

spec_eq_refl : (s : TargetSpec) → spec_eq s s ≡ true
unfolding spec_eq
spec_eq_refl s = ground (
  arith,
  bytes_eq_refl s.product_version,
  bytes_eq_refl s.release_branch,
  bytes_eq_refl s.uv_version,
  bytes_eq_refl s.python_version,
  bytes_eq_refl s.lock_digest,
)

normalize_result :
    (s n : TargetSpec)
    → normalize_target_spec s ≡ some n
    → n ≡ record s { lock_digest = to_lower s.lock_digest }
unfolding normalize_target_spec
normalize_result s n h = ground arith

normalize_lower :
    (s n : TargetSpec)
    → normalize_target_spec s ≡ some n
    → normalize_target_spec (record s { lock_digest = to_lower s.lock_digest })
      ≡ some (record s { lock_digest = to_lower s.lock_digest })
unfolding normalize_target_spec
normalize_lower s n h = ground (
  arith,
  empty_lower s.lock_digest,
  digest_ok-to_lower s.lock_digest,
  to_lower_idempotent s.lock_digest,
)

-- Normalisation changes nothing the second time.
normalize_again :
    (s n : TargetSpec) → normalize_target_spec s ≡ some n → normalize_target_spec n ≡ some n
normalize_again s n h = rw (normalize_result s n h) (normalize_lower s n h)

module _ (sha256_hex : Bytes → Bytes)
    (text_of_digest : (text : Bytes) → is_empty (sha256_hex text) ≡ false) where
  fingerprint_text : (s : TargetSpec) → is_empty (target_fingerprint sha256_hex s) ≡ false
  unfolding target_fingerprint
  fingerprint_text s = text_of_digest _

  -- A target that `NewTarget` returns passes `validateTarget`, also after the digest was put in
  -- lower case, as long as the fingerprint of a text is never empty.
  pub new_target-validate_target :
      (spec : TargetSpec) (target : Target)
      → new_target sha256_hex spec ≡ some target
      → validate_target sha256_hex target ≡ true
  unfolding new_target validate_target
  new_target-validate_target spec target e = elim (Option-cases (normalize_target_spec spec)) [
    | inl f ↦ absurd (ground arith)
    | inr (n, f) ↦
        let again = normalize_again spec n f in
        let same : target ≡ (record { spec = n; fingerprint = target_fingerprint sha256_hex n }) =
          ground arith in
        rw same (
          ground (
            arith,
            again,
            spec_eq_refl n,
            fingerprint_text n,
            bytes_eq_refl (target_fingerprint sha256_hex n),
          ))
  ]
