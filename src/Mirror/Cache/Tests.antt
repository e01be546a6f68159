-- ===== src/Mirror/Cache/Tests.antt =====
-- A plan that is stored, found, and forgotten half an hour later.
use Prim.{tt}
use auto_mas_runtime.Base.{
  ℕ, ◌≡◌, refl, List, [], ◌∷◌, none, some, codes, bytes_eq, to_lower, arith,
}
use auto_mas_runtime.Mirror.Source.{
  kind_eq, kind_valid, git, accept_url, new_source, normalize_source_url, rebuild_source, source_eq,
  valid_source_key, validate_source,
}
use auto_mas_runtime.Mirror.Catalog.{valid_plan, plan_sources_ok, plan_seal}
use auto_mas_runtime.Mirror.Catalog.Tests.{plain_url, seal_of, git_plan}
use auto_mas_runtime.Mirror.Cache.{lookup, store}
use auto_mas_runtime.Mirror.Cache.Remembers.{
  CacheCall, store_call, lookup_call, Ascending, answers, no_entries,
}
use auto_mas_runtime.Mirror.Cache.History.{last_store, fresh, told_answers, answers-told_answers}

abbrev calls : List (ℕ × CacheCall)
calls =
    (1, store_call git (codes "seal") git_plan [])
    ∷ (2, lookup_call git (codes "seal"))
    ∷ (3, lookup_call git (codes "other"))
    ∷ (1800000000001, lookup_call git (codes "seal"))
    ∷ []

calls_ascend : Ascending 0 calls
calls_ascend = (omega arith, (omega arith, (omega arith, (omega arith, tt))))

answered : answers plain_url seal_of 0 calls no_entries ≡ some (git_plan, []) ∷ none ∷ none ∷ []
unfolding answers lookup store valid_plan plan_sources_ok plan_seal kind_eq kind_valid bytes_eq
    accept_url new_source normalize_source_url rebuild_source source_eq valid_source_key
    validate_source to_lower
answered = refl

told : told_answers plain_url seal_of 0 [] calls ≡ some (git_plan, []) ∷ none ∷ none ∷ []
unfolding told_answers last_store fresh valid_plan plan_sources_ok plan_seal kind_eq kind_valid
    bytes_eq accept_url new_source normalize_source_url rebuild_source source_eq valid_source_key
    validate_source to_lower
told = refl

answers-told_answers_example :
    answers plain_url seal_of 0 calls no_entries ≡ told_answers plain_url seal_of 0 [] calls
answers-told_answers_example = answers-told_answers plain_url seal_of 0 calls calls_ascend
