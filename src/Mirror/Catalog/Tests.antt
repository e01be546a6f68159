-- ===== src/Mirror/Catalog/Tests.antt =====
-- A catalog with three git sources, and the plans made of it.
use mathlib.Core.List.{Perm}
use auto_mas_runtime.Base.{
  ◌≡◌, refl, Bool, true, false, [], ◌∷◌, some, Bytes, codes, filter, ◌↔◌, ◌⊎◌, any, bytes_eq,
  to_lower,
}
use auto_mas_runtime.Mirror.Source.{
  Kind, kind_eq, kind_valid, UrlPackage, Source, source_eq, accept_url, valid_source_key,
  normalize_source_url, new_source, rebuild_source, validate_source, git, uv, python, package_index,
  other,
}
use auto_mas_runtime.Mirror.Catalog.{
  Catalog, Policy, Preferred, AttemptPlan, built, refused, policy_rejected, find_key,
  catalog_source, preferred_ok, preferred_key, first_choice, ordered, valid_policy,
  validate_catalog, build_online, build_plan, new_plan, plan_seal, valid_plan, check_sources,
  check_kind,
}
use auto_mas_runtime.Mirror.Catalog.Order.{allowed}
use auto_mas_runtime.Mirror.Catalog.Refused.{bad_preference}
use auto_mas_runtime.Mirror.Catalog.Attempts.{Ranked}
use auto_mas_runtime.Mirror.Catalog.Plans.{online_order, build_plan-valid_plan, policy_rejected_iff}

-- A package that takes every text for the host of an https URL.
abbrev pub plain_url : UrlPackage
plain_url = record {
  parse = λ s. some (record {
    absolute = true;
    opaque = [];
    scheme = codes "https";
    host = s;
    hostname = s;
    has_user = false;
    raw_query = [];
    force_query = false;
    fragment = [];
    raw_fragment = [];
    path = [];
    raw_path = [];
  });
  write = λ u. u.host;
  lower = to_lower;
}

abbrev pub plain_source : Kind → Bytes → Bool → Source
plain_source kind key official = record {
  kind = kind;
  key = key;
  base_url = codes "https://a.example";
  official = official;
  simple_base = [];
  packages_base = [];
}

abbrev pub github : Source
github = plain_source git (codes "github") true

abbrev first_mirror : Source
first_mirror = plain_source git (codes "first") false

abbrev second_mirror : Source
second_mirror = plain_source git (codes "second-2") false

abbrev pub small_catalog : Catalog
small_catalog = record {
  sources = λ k. elim k [
    | git ↦ first_mirror ∷ github ∷ second_mirror ∷ []
    | uv ↦ plain_source uv (codes "astral") true ∷ []
    | python ↦ plain_source python (codes "astral") true ∷ []
    | package_index ↦ plain_source package_index (codes "pypi") true ∷ []
    | other s ↦ []
  ];
}

abbrev preference : Preferred
preference = (git, codes "second-2") ∷ (uv, codes "astral") ∷ []

abbrev policy : Policy
policy = record { preferred = some preference; offline = false; mirror_only = false }

abbrev pub seal_of : Bytes → Bytes
seal_of text = codes "sealed"

abbrev pub git_plan : AttemptPlan
git_plan = record {
  kind = git;
  sources = second_mirror ∷ first_mirror ∷ github ∷ [];
  offline = false;
  seal = codes "sealed";
}

git_plan_built : build_plan plain_url seal_of small_catalog policy git ≡ built git_plan
unfolding bytes_eq to_lower build_plan build_online kind_valid valid_policy valid_source_key
    validate_catalog check_kind check_sources validate_source rebuild_source new_source
    normalize_source_url accept_url source_eq kind_eq preferred_ok catalog_source find_key ordered
    first_choice preferred_key new_plan plan_seal
git_plan_built = refl

small_catalog_valid : validate_catalog plain_url small_catalog ≡ true
unfolding bytes_eq to_lower validate_catalog check_kind check_sources validate_source rebuild_source
    new_source normalize_source_url accept_url source_eq kind_eq kind_valid valid_source_key
small_catalog_valid = refl

abbrev mirrors_only : Policy
mirrors_only = record { preferred = some preference; offline = false; mirror_only = true }

mirrors_only_valid : valid_policy mirrors_only ≡ true
unfolding valid_policy kind_valid valid_source_key
mirrors_only_valid = refl

online_order_example :
    (preferred : Preferred) × (policy.preferred ≡ some preferred)
    × Ranked (preferred_key git preferred) git_plan.sources
    × Perm git_plan.sources (filter (allowed policy.mirror_only) (small_catalog.sources git))
online_order_example =
    online_order plain_url seal_of small_catalog policy git git_plan git_plan_built refl

build_plan-valid_plan_example : valid_plan plain_url seal_of git_plan ≡ true
build_plan-valid_plan_example =
    build_plan-valid_plan plain_url seal_of small_catalog policy git git_plan git_plan_built

policy_rejected_iff_example :
    (build_plan plain_url seal_of small_catalog mirrors_only git ≡ refused policy_rejected) ↔ (
      (any (bad_preference small_catalog true) preference ≡ true)
      ⊎ (filter (allowed true) (small_catalog.sources git) ≡ []))
unfolding kind_valid
policy_rejected_iff_example =
    policy_rejected_iff plain_url seal_of small_catalog mirrors_only git preference refl
      mirrors_only_valid small_catalog_valid refl refl
