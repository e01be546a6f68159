-- ===== src/Mirror/Rank/Valid.antt =====
-- A ranked plan is one that `validPlan` accepts.
use auto_mas_runtime.Base.{
  ◌≡◌, refl, sym, subst, true, false, List, [], ◌∷◌, some, Bytes, All, map, ◌==◌, arith, Bool-cases,
  inl, inr, length,
}
use auto_mas_runtime.Mirror.Source.{kind_valid, UrlPackage, Source}
use auto_mas_runtime.Mirror.Catalog.{AttemptPlan, valid_plan, new_plan, plan_sources_ok}
use auto_mas_runtime.Mirror.Catalog.Distinct.{
  OtherKey, Distinct, IsSound, bytes_eq_sym, plan_sources_ok-IsSound,
}
use auto_mas_runtime.Mirror.Catalog.Build.{new_plan_valid}
use auto_mas_runtime.Mirror.Rank.{
  ProbeResult, RankedSource, rank_source, ranked_after, insert_ranked, sort_ranked, rank_plan,
}
use auto_mas_runtime.Mirror.Rank.Order.{sources_of, sources_of-map}

module _ (P : Source → Type 0) where
  insert-sources :
      (x : RankedSource) (l : List RankedSource)
      → P x.source
      → All P (sources_of l)
      → All P (sources_of (insert_ranked x l))
  unfolding insert_ranked
  insert-sources x [] h k = (h, tt)
  insert-sources x (y ∷ l) h k = elim (Bool-cases (ranked_after x y)) [
    | inl e ↦ rw e (k.0, insert-sources x l h k.1)
    | inr e ↦ rw e (h, k)
  ]

  sort-sources : (l : List RankedSource) → All P (sources_of l) → All P (sources_of (sort_ranked l))
  unfolding sort_ranked
  sort-sources [] h = tt
  sort-sources (x ∷ l) h = insert-sources x (sort_ranked l) h.0 (sort-sources l h.1)

insert-Distinct :
    (x : RankedSource) (l : List RankedSource)
    → All (OtherKey x.source.key) (sources_of l)
    → Distinct (sources_of l)
    → Distinct (sources_of (insert_ranked x l))
unfolding insert_ranked
insert-Distinct x [] o d = (tt, tt)
insert-Distinct x (y ∷ l) o d = elim (Bool-cases (ranked_after x y)) [
  | inl e ↦ rw e (
    insert-sources (OtherKey y.source.key) x l (bytes_eq_sym y.source.key x.source.key o.0) d.0,
    insert-Distinct x l o.1 d.1,
  )
  | inr e ↦ rw e (o, d)
]

sort-Distinct :
    (l : List RankedSource) → Distinct (sources_of l) → Distinct (sources_of (sort_ranked l))
unfolding sort_ranked
sort-Distinct [] d = tt
sort-Distinct (x ∷ l) d =
    insert-Distinct x (sort_ranked l) (sort-sources (OtherKey x.source.key) l d.0)
      (sort-Distinct l d.1)

insert-some :
    (x : RankedSource) (l : List RankedSource)
    → (length (sources_of (insert_ranked x l)) == 0) ≡ false
unfolding insert_ranked
insert-some x [] = refl
insert-some x (y ∷ l) = elim (Bool-cases (ranked_after x y)) [
  | inl e ↦ rw e (ground arith)
  | inr e ↦ rw e (ground arith)
]

sort-some :
    (results : List ProbeResult) (pinned : Bytes) (l : List Source)
    → (length l == 0) ≡ false
    → (length (sources_of (sort_ranked (map (rank_source results pinned) l))) == 0) ≡ false
unfolding sort_ranked
sort-some results pinned [] h = cc
sort-some results pinned (s ∷ l) h =
    insert-some (rank_source results pinned s) (sort_ranked (map (rank_source results pinned) l))

module _ (net : UrlPackage) (sha256 : Bytes → Bytes) where
  plan_facts :
      (plan : AttemptPlan)
      → valid_plan net sha256 plan ≡ true
      → plan.offline ≡ false
      → (kind_valid plan.kind ≡ true)
        × ((length plan.sources == 0) ≡ false)
        × (plan_sources_ok net plan.kind plan.sources [] ≡ true)
  unfolding valid_plan
  plan_facts plan h o = (ground arith, ground arith, ground arith)

  -- The plan that `RankPlan` returns passes `validPlan`: ranking keeps its sources valid and their keys
  -- distinct, and seals their new order.
  pub rank_plan-valid_plan :
      (plan ranked : AttemptPlan) (results : List ProbeResult) (pinned : Bytes)
      → rank_plan net sha256 plan results pinned ≡ some ranked
      → valid_plan net sha256 ranked ≡ true
  unfolding rank_plan
  rank_plan-valid_plan plan ranked results pinned h =
      let entries = map (rank_source results pinned) plan.sources in
      let same : ranked ≡ new_plan sha256 plan.kind (sources_of (sort_ranked entries)) false =
        ground (arith, h) in
      let (v, n, ok) = plan_facts plan (ground (arith, h)) (ground (arith, h)) in
      let (sound, d, o) = plan_sources_ok-IsSound net plan.kind plan.sources [] ok in
      let back = sym (sources_of-map results pinned plan.sources) in
      rw same (
        new_plan_valid net sha256 plan.kind (sources_of (sort_ranked entries)) v
          (sort-some results pinned plan.sources n)
          (sort-sources (IsSound net plan.kind) entries
            (subst (All (IsSound net plan.kind)) back sound))
          (sort-Distinct entries (subst Distinct back d)))
