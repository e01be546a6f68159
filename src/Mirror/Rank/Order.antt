-- ===== src/Mirror/Rank/Order.antt =====
-- internal/mirror/rank.go: the ranking permutes the plan's sources into the order of the comparison.
use mathlib.Core.List.{Perm}
use mathlib.Core.List.Perm
use auto_mas_runtime.Base.{
  ◌≡◌, refl, sym, ap, subst, true, false, List, [], ◌∷◌, some, Bytes, All, All-imp, map, arith,
  Bool-cases, inl, inr, Option-cases, bytes_eq, bytes_eq_iff, is_empty, not, ◌&&◌, ◌⊎◌,
}
use auto_mas_runtime.Base.Int.{int_lt, int_le_trans, int_lt-asymmetric}
use auto_mas_runtime.Mirror.Source.{UrlPackage, Source}
use auto_mas_runtime.Mirror.Catalog.{AttemptPlan, new_plan}
use auto_mas_runtime.Mirror.Rank.{
  ProbeResult, RankedSource, rank_source, ranked_after, insert_ranked, sort_ranked, rank_plan,
  find_result,
}

after-asymmetric : (a b : RankedSource) → ranked_after a b ≡ true → ranked_after b a ≡ false
unfolding ranked_after
after-asymmetric a b h = ground (
  arith,
  int_lt-asymmetric a.bytes_per_second b.bytes_per_second,
  int_lt-asymmetric b.bytes_per_second a.bytes_per_second,
  int_lt-asymmetric b.ttfb a.ttfb,
)

-- Equal speeds compare like one.
after_trans :
    (a b c : RankedSource)
    → ranked_after a b ≡ false
    → ranked_after b c ≡ false
    → ranked_after a c ≡ false
unfolding ranked_after
after_trans a b c h k =
    let x = a.bytes_per_second in
    let y = b.bytes_per_second in
    let z = c.bytes_per_second in
    ground (
      arith,
      int_le_trans z y x,
      int_le_trans x z y,
      int_le_trans y x z,
      int_le_trans a.ttfb b.ttfb c.ttfb,
    )

abbrev pub Sorted : List RankedSource → Type 0
Sorted [] = Unit
Sorted (x ∷ l) = All (λ y. ranked_after x y ≡ false) l × Sorted l

insert-All :
    (P : RankedSource → Type 0) (x : RankedSource) (l : List RankedSource)
    → P x
    → All P l
    → All P (insert_ranked x l)
unfolding insert_ranked
insert-All P x [] h k = (h, tt)
insert-All P x (y ∷ l) h k = elim (Bool-cases (ranked_after x y)) [
  | inl e ↦ rw e (k.0, insert-All P x l h k.1)
  | inr e ↦ rw e (h, k)
]

insert-Sorted : (x : RankedSource) (l : List RankedSource) → Sorted l → Sorted (insert_ranked x l)
unfolding insert_ranked
insert-Sorted x [] h = (tt, tt)
insert-Sorted x (y ∷ l) h = elim (Bool-cases (ranked_after x y)) [
  | inl e ↦ rw e (
    insert-All (λ z. ranked_after y z ≡ false) x l (after-asymmetric x y e) h.0,
    insert-Sorted x l h.1,
  )
  | inr e ↦ rw e (
    (
      e,
      All-imp (λ z. ranked_after y z ≡ false) (λ z. ranked_after x z ≡ false) l
          (λ z k. after_trans x y z e k) h.0,
    ),
    h,
  )
]

sort-Sorted : (l : List RankedSource) → Sorted (sort_ranked l)
unfolding sort_ranked
sort-Sorted [] = tt
sort-Sorted (x ∷ l) = insert-Sorted x (sort_ranked l) (sort-Sorted l)

sort-All : (P : RankedSource → Type 0) (l : List RankedSource) → All P l → All P (sort_ranked l)
unfolding sort_ranked
sort-All P [] h = tt
sort-All P (x ∷ l) h = insert-All P x (sort_ranked l) h.0 (sort-All P l h.1)

abbrev pub sources_of : List RankedSource → List Source
sources_of l = map (λ e. e.source) l

insert-Perm :
    (x : RankedSource) (l : List RankedSource)
    → Perm (sources_of (insert_ranked x l)) (x.source ∷ sources_of l)
unfolding insert_ranked
insert-Perm x [] = Perm.refl (x.source ∷ [])
insert-Perm x (y ∷ l) = elim (Bool-cases (ranked_after x y)) [
  | inl e ↦ rw e (
      Perm.trans (Perm.cons y.source (insert-Perm x l))
        (Perm.swap x.source y.source (sources_of l)))
  | inr e ↦ rw e (Perm.refl (x.source ∷ y.source ∷ sources_of l))
]

sort-Perm : (l : List RankedSource) → Perm (sources_of (sort_ranked l)) (sources_of l)
unfolding sort_ranked
sort-Perm [] = Perm.refl []
sort-Perm (x ∷ l) = Perm.trans (insert-Perm x (sort_ranked l)) (Perm.cons x.source (sort-Perm l))

module _ (results : List ProbeResult) (pinned : Bytes) where
  -- A probe reached the source with this result.
  abbrev pub Reached : Source → ProbeResult → Type 0
  Reached s r = (find_result s.key results ≡ some r) × (r.ok ≡ true)

  -- `t` is the pinned source.
  abbrev pub Pinned : Source → Type 0
  Pinned t = (t.key ≡ pinned) × (is_empty pinned ≡ false)

  -- The source `s` may stand before `t`: when `t` is pinned so is `s`, and when a probe reached `t` then
  -- `s` is pinned or was reached too, with more bytes in a second, or with as many and a first
  -- byte that did not come later.
  abbrev pub MayPrecede : Source → Source → Type 0
  MayPrecede s t =
      (Pinned t → Pinned s)
      × ((r : ProbeResult)
          → Reached t r
          → Pinned s
            ⊎ ((q : ProbeResult) × Reached s q
                × ((int_lt r.bytes_per_second q.bytes_per_second ≡ true)
                    ⊎ (int_lt q.bytes_per_second r.bytes_per_second ≡ false)
                      × (int_lt r.ttfb q.ttfb ≡ false))))

  abbrev pub InOrder : List Source → Type 0
  InOrder [] = Unit
  InOrder (s ∷ l) = All (λ t. MayPrecede s t) l × InOrder l

  -- What the comparison says of two sources.
  may_precede :
      (s t : Source)
      → ranked_after (rank_source results pinned s) (rank_source results pinned t) ≡ false
      → MayPrecede s t
  unfolding rank_source ranked_after
  may_precede s t h = (first, second)
    where
      faster :
          (q r : ProbeResult)
          → (not (is_empty pinned) && bytes_eq s.key pinned) ≡ false
          → find_result s.key results ≡ some q
          → q.ok ≡ true
          → Reached t r
          → (int_lt r.bytes_per_second q.bytes_per_second ≡ true)
            ⊎ (int_lt q.bytes_per_second r.bytes_per_second ≡ false)
              × (int_lt r.ttfb q.ttfb ≡ false)
      faster q r e f k p = elim (Bool-cases (int_lt r.bytes_per_second q.bytes_per_second)) [
        | inl m ↦ inl m
        | inr m ↦
            inr (ground (arith, h, e, f, k, p.0, p.1, m), ground (arith, h, e, f, k, p.0, p.1, m))
      ]

      first : Pinned t → Pinned s
      first p =
          let e = (bytes_eq_iff t.key pinned).1 p.0 in
          elim (Bool-cases (bytes_eq s.key pinned)) [
            | inl f ↦ ((bytes_eq_iff s.key pinned).0 f, p.1)
            | inr f ↦ absurd (ground (arith, h, e, f, p.1))
          ]

      second :
          (r : ProbeResult)
          → Reached t r
          → Pinned s
            ⊎ ((q : ProbeResult) × Reached s q
                × ((int_lt r.bytes_per_second q.bytes_per_second ≡ true)
                    ⊎ (int_lt q.bytes_per_second r.bytes_per_second ≡ false)
                      × (int_lt r.ttfb q.ttfb ≡ false)))
      second r p = elim (Bool-cases (not (is_empty pinned) && bytes_eq s.key pinned)) [
        | inl e ↦ inl ((bytes_eq_iff s.key pinned).0 (ground (arith, e)), ground (arith, e))
        | inr e ↦ elim (Option-cases (find_result s.key results)) [
          | inl f ↦ absurd (ground (arith, h, e, f, p.0, p.1))
          | inr (q, f) ↦ elim (Bool-cases q.ok) [
            | inr k ↦ absurd (ground (arith, h, e, f, k, p.0, p.1))
            | inl k ↦ inr (q, (f, k), faster q r e f k p)
          ]
        ]
      ]

  abbrev Honest : RankedSource → Type 0
  Honest e = e ≡ rank_source results pinned e.source

  rank_source-source : (s : Source) → (rank_source results pinned s).source ≡ s
  unfolding rank_source
  rank_source-source s = ground arith

  Honest-map : (l : List Source) → All Honest (map (rank_source results pinned) l)
  Honest-map [] = tt
  Honest-map (s ∷ l) = (sym (ap (rank_source results pinned) (rank_source-source s)), Honest-map l)

  pub sources_of-map : (l : List Source) → sources_of (map (rank_source results pinned) l) ≡ l
  sources_of-map [] = refl
  sources_of-map (s ∷ l) = cc (rank_source-source s, sources_of-map l)

  told-after :
      (x : RankedSource) (l : List RankedSource)
      → Honest x
      → All Honest l
      → All (λ y. ranked_after x y ≡ false) l
      → All (λ t. MayPrecede x.source t) (sources_of l)
  told-after x [] e h k = tt
  told-after x (y ∷ l) e h k =
      (may_precede x.source y.source (cc (e, h.0, k.0)), told-after x l e h.1 k.1)

  told-InOrder : (l : List RankedSource) → All Honest l → Sorted l → InOrder (sources_of l)
  told-InOrder [] h s = tt
  told-InOrder (x ∷ l) h s = (told-after x l h.0 h.1 s.0, told-InOrder l h.1 s.1)

module _ (net : UrlPackage) (sha256 : Bytes → Bytes) where
  -- A ranked plan holds the sources of the plan, each as often as before, in an order in which one source
  -- stands before another only if it is pinned whenever the other is, and, when a probe reached the
  -- other, only if it is pinned or was reached too, with more bytes in a second, or with as many and a
  -- first byte that did not come later. Its kind is the plan's, and it is online.
  pub rank_plan_order :
      (plan ranked : AttemptPlan) (results : List ProbeResult) (pinned : Bytes)
      → rank_plan net sha256 plan results pinned ≡ some ranked
      → Perm ranked.sources plan.sources
        × InOrder results pinned ranked.sources
        × (ranked.kind ≡ plan.kind)
        × (ranked.offline ≡ false)
  unfolding rank_plan new_plan
  rank_plan_order plan ranked results pinned h =
      let entries = map (rank_source results pinned) plan.sources in
      let same : ranked ≡ new_plan sha256 plan.kind (sources_of (sort_ranked entries)) false =
        ground (arith, h) in
      rw same (
        subst (Perm (sources_of (sort_ranked entries))) (sources_of-map results pinned plan.sources)
            (sort-Perm entries),
        told-InOrder results pinned (sort_ranked entries)
            (sort-All (λ e. e ≡ rank_source results pinned e.source) entries
              (Honest-map results pinned plan.sources))
            (sort-Sorted entries),
        refl,
        refl,
      )
