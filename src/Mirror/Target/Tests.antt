-- ===== src/Mirror/Target/Tests.antt =====
-- A target with a lock digest in capitals.
use auto_mas_runtime.Base.{◌≡◌, refl, true, [], Bytes, codes, some, bytes_eq, to_lower}
use auto_mas_runtime.Base.Strings.{after_prefix, has_suffix, cut}
use auto_mas_runtime.Mirror.Target.{
  Target, TargetSpec, new_target, validate_target, normalize_target_spec, version_field_ok,
  valid_version_value, release_branch_ok, digest_ok, target_fingerprint,
}
use auto_mas_runtime.Mirror.Target.Valid.{new_target-validate_target}

abbrev locked : Bytes → TargetSpec
locked digest = record {
  product_version = [];
  release_branch = codes "release/v2";
  uv_version = [];
  python_version = codes "3.12";
  lock_digest = digest;
}

abbrev capitals : Bytes
capitals = codes "ABCDEF0123456789ABCDEF0123456789ABCDEF0123456789ABCDEF0123456789"

abbrev small_letters : Bytes
small_letters = codes "abcdef0123456789abcdef0123456789abcdef0123456789abcdef0123456789"

abbrev digest_of : Bytes → Bytes
digest_of text = codes "f"

abbrev locked_target : Target
locked_target = record { spec = locked small_letters; fingerprint = codes "f" }

locked_target_made : new_target digest_of (locked capitals) ≡ some locked_target
unfolding new_target normalize_target_spec version_field_ok valid_version_value after_prefix cut
    has_suffix release_branch_ok digest_ok target_fingerprint bytes_eq to_lower
locked_target_made = refl

new_target-validate_target_example : validate_target digest_of locked_target ≡ true
new_target-validate_target_example =
    new_target-validate_target digest_of (λ text. refl) (locked capitals) locked_target
      locked_target_made
