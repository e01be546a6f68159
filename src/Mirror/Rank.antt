-- ===== src/Mirror/Rank.antt =====
-- internal/mirror/rank.go: the order of a plan's sources after measurements. An int64 is a ℤ.
pub mod Order
pub mod Valid
pub mod Tests
use auto_mas_runtime.Base.{
  ℕ, zero, suc, ◌+◌, ◌≡◌, refl, Bool, true, false, not, ◌&&◌, ◌||◌, List, [], ◌∷◌, Option, none,
  some, Bytes, any, map, bytes_eq, ltb, ◌==◌, if◌then◌else◌, is_empty,
}
use auto_mas_runtime.Base.Int.{ℤ, pos, int_lt}
use auto_mas_runtime.Mirror.Source.{Kind, UrlPackage, Source, source_eq, valid_source_key}
use auto_mas_runtime.Mirror.Catalog.{AttemptPlan, valid_plan, new_plan}

-- What the ranking reads of a `ProbeResult`.
pub record ProbeResult : Type 0 where
  pub source : Source
  pub ok : Bool
  pub ttfb : ℤ
  pub bytes_per_second : ℤ

-- `rankGroupPinned`, `rankGroupOK`, `rankGroupFailed` are 0, 1 and 2.
pub record RankedSource : Type 0 where
  pub source : Source
  pub group : ℕ
  pub ttfb : ℤ
  pub bytes_per_second : ℤ

-- `byKey[key]`.
unfoldable pub find_result : Bytes → List ProbeResult → Option ProbeResult
find_result key [] = none
find_result key (r ∷ rest) = if bytes_eq r.source.key key then some r else find_result key rest

-- The loop over the results: a second result for a key and a result for a source that is not in
-- the plan are errors.
unfoldable pub results_ok : List Source → List Bytes → List ProbeResult → Bool
results_ok sources keys [] = true
results_ok sources keys (r ∷ rest) =
    let next = results_ok sources (r.source.key ∷ keys) rest in
    if any (λ k. bytes_eq k r.source.key) keys
    then false
    else if not (any (λ s. source_eq s r.source) sources)
    then false
    else next

unfoldable pub pinned_ok : List Source → Bytes → Bool
pinned_ok sources pinned =
    is_empty pinned || valid_source_key pinned && any (λ s. bytes_eq s.key pinned) sources

-- One round of the loop over the plan's sources.
unfoldable pub rank_source : List ProbeResult → Bytes → Source → RankedSource
rank_source results pinned source =
    let entry : RankedSource = elim (find_result source.key results) [
      | none ↦ record { source = source; group = 2; ttfb = pos 0; bytes_per_second = pos 0 }
      | some r ↦
          if r.ok
          then record {
            source = source;
            group = 1;
            ttfb = r.ttfb;
            bytes_per_second = r.bytes_per_second;
          }
          else record { source = source; group = 2; ttfb = pos 0; bytes_per_second = pos 0 }
    ] in
    if not (is_empty pinned) && bytes_eq source.key pinned
    then record entry { group = 0 }
    else entry

-- `compareRanked(a, b) > 0`.
unfoldable pub ranked_after : RankedSource → RankedSource → Bool
ranked_after a b =
    if not (a.group == b.group)
    then ltb b.group a.group
    else if not (a.group == 1)
    then false
    else if int_lt a.bytes_per_second b.bytes_per_second
    then true
    else if int_lt b.bytes_per_second a.bytes_per_second
    then false
    else int_lt b.ttfb a.ttfb

-- `slices.SortStableFunc` with that comparison.
unfoldable pub insert_ranked : RankedSource → List RankedSource → List RankedSource
insert_ranked x [] = x ∷ []
insert_ranked x (y ∷ ys) =
    let later = insert_ranked x ys in if ranked_after x y then y ∷ later else x ∷ y ∷ ys

unfoldable pub sort_ranked : List RankedSource → List RankedSource
sort_ranked [] = []
sort_ranked (x ∷ xs) = insert_ranked x (sort_ranked xs)

module _ (net : UrlPackage) (sha256 : Bytes → Bytes) where
  -- `RankPlan`.
  unfoldable pub rank_plan : AttemptPlan → List ProbeResult → Bytes → Option AttemptPlan
  rank_plan plan results pinned =
      if not (valid_plan net sha256 plan) || plan.offline
      then none
      else if not (results_ok plan.sources [] results)
      then none
      else if not (pinned_ok plan.sources pinned)
      then none
      else some (
          new_plan sha256 plan.kind
            (map (λ e. e.source) (sort_ranked (map (rank_source results pinned) plan.sources)))
            false)
