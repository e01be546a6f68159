-- ===== src/Mirror/Rank/Tests.antt =====
-- Two measured sources, of which the second is the faster.
use mathlib.Core.List.{Perm}
use auto_mas_runtime.Base.{◌≡◌, refl, true, false, List, [], ◌∷◌, some, codes, bytes_eq, to_lower}
use auto_mas_runtime.Base.Int.{pos, int_lt}
use auto_mas_runtime.Mirror.Source.{
  uv, Source, kind_eq, kind_valid, valid_source_key, normalize_source_url, accept_url, new_source,
  rebuild_source, validate_source, source_eq,
}
use auto_mas_runtime.Mirror.Catalog.{AttemptPlan, valid_plan, plan_sources_ok, plan_seal, new_plan}
use auto_mas_runtime.Mirror.Catalog.Tests.{plain_url, plain_source, seal_of}
use auto_mas_runtime.Mirror.Rank.{
  ProbeResult, find_result, results_ok, pinned_ok, rank_source, ranked_after, insert_ranked,
  sort_ranked, rank_plan,
}
use auto_mas_runtime.Mirror.Rank.Valid.{rank_plan-valid_plan}
use auto_mas_runtime.Mirror.Rank.Order.{InOrder, rank_plan_order}

abbrev slow : Source
slow = plain_source uv (codes "slow") false

abbrev fast : Source
fast = plain_source uv (codes "fast") false

abbrev official : Source
official = plain_source uv (codes "astral") true

abbrev uv_plan : List Source → AttemptPlan
uv_plan sources = record { kind = uv; sources = sources; offline = false; seal = codes "sealed" }

abbrev measured : List ProbeResult
measured =
    record { source = slow; ok = true; ttfb = pos 9; bytes_per_second = pos 10 }
    ∷ record { source = fast; ok = true; ttfb = pos 9; bytes_per_second = pos 20 }
    ∷ []

ranking :
    rank_plan plain_url seal_of (uv_plan (official ∷ slow ∷ fast ∷ [])) measured []
    ≡ some (uv_plan (fast ∷ slow ∷ official ∷ []))
unfolding rank_plan valid_plan plan_sources_ok kind_valid kind_eq bytes_eq to_lower validate_source
    rebuild_source new_source valid_source_key normalize_source_url accept_url source_eq plan_seal
    results_ok pinned_ok rank_source find_result sort_ranked insert_ranked ranked_after int_lt
    new_plan
ranking = refl

rank_plan_order_example :
    Perm (fast ∷ slow ∷ official ∷ []) (official ∷ slow ∷ fast ∷ [])
    × InOrder measured [] (fast ∷ slow ∷ official ∷ [])
    × (uv ≡ uv)
    × (false ≡ false)
rank_plan_order_example =
    rank_plan_order plain_url seal_of (uv_plan (official ∷ slow ∷ fast ∷ []))
      (uv_plan (fast ∷ slow ∷ official ∷ [])) measured [] ranking

rank_plan-valid_plan_example :
    valid_plan plain_url seal_of (uv_plan (fast ∷ slow ∷ official ∷ [])) ≡ true
rank_plan-valid_plan_example =
    rank_plan-valid_plan plain_url seal_of (uv_plan (official ∷ slow ∷ fast ∷ []))
      (uv_plan (fast ∷ slow ∷ official ∷ [])) measured [] ranking
