-- ===== src/Mirror/Cache/History.antt =====
-- internal/mirror/probecache.go: what a cache answers, told of the calls that were made before.
use auto_mas_runtime.Base.{
  ℕ, ◌-◌, ◌*◌, ◌≡◌, refl, ap, ◌∙◌, true, false, not, ◌&&◌, List, [], ◌∷◌, Option, none, some, Bytes,
  bytes_eq, bytes_eq_iff, is_empty, ltb, ◌==◌, if◌then◌else◌, arith, Bool-cases, Option-cases, inl,
  inr,
}
use auto_mas_runtime.Mirror.Source.{UrlPackage, Kind, kind_eq, kind_eq_iff, kind_valid}
use auto_mas_runtime.Mirror.Catalog.{AttemptPlan, valid_plan}
use auto_mas_runtime.Mirror.Rank.{ProbeResult}
use auto_mas_runtime.Mirror.Cache.{CachedRanking, Entries, Hit, store, storable}
use auto_mas_runtime.Mirror.Cache.Remembers.{
  CacheCall, store_call, lookup_call, lookup_last, no_entries, Ascending, answers, answers_last,
  answers-answers_last,
}

-- Half an hour in nanoseconds, when no positive time to live was given.
abbrev pub life : ℕ → ℕ
life ttl = if ttl == 0 then 30 * (60 * 1000000000) else ttl

module _ (net : UrlPackage) (sha256 : Bytes → Bytes) where
  -- The last of the earlier calls, of which the latest comes first, that stored a valid plan of the
  -- kind under a seal that is not empty.
  unfoldable pub last_store : List (ℕ × CacheCall) → Kind → Option CachedRanking
  last_store [] kind = none
  last_store ((time, lookup_call k s) ∷ earlier) kind = last_store earlier kind
  last_store ((time, store_call k s plan results) ∷ earlier) kind =
      let before = last_store earlier kind in
      if kind_eq kind k
        && (kind_valid kind
            && (not (is_empty s) && (valid_plan net sha256 plan && kind_eq plan.kind kind)))
      then some (record { seal = s; plan = plan; results = results; stored_at = time })
      else before

  -- Its plan, when the seal is the same and it is younger than the time to live.
  unfoldable pub fresh : ℕ → ℕ → Bytes → Option CachedRanking → Option Hit
  fresh ttl now seal none = none
  fresh ttl now seal (some e) =
      if bytes_eq e.seal seal && ltb (now - e.stored_at) (life ttl)
      then some (e.plan, e.results)
      else none

  unfoldable pub told_answers : ℕ → List (ℕ × CacheCall) → List (ℕ × CacheCall) → List (Option Hit)
  told_answers ttl earlier [] = []
  told_answers ttl earlier ((now, store_call kind seal plan results) ∷ rest) =
      told_answers ttl ((now, store_call kind seal plan results) ∷ earlier) rest
  told_answers ttl earlier ((now, lookup_call kind seal) ∷ rest) =
      fresh ttl now seal (last_store earlier kind)
      ∷ told_answers ttl ((now, lookup_call kind seal) ∷ earlier) rest

  last_store-valid :
      (earlier : List (ℕ × CacheCall)) (kind : Kind) (e : CachedRanking)
      → last_store earlier kind ≡ some e
      → (kind_valid kind ≡ true) × (is_empty e.seal ≡ false)
  unfolding last_store
  last_store-valid [] kind e h = absurd (ground (arith, h))
  last_store-valid ((time, lookup_call k s) ∷ earlier) kind e h = last_store-valid earlier kind e h
  last_store-valid ((time, store_call k s plan results) ∷ earlier) kind e h =
      elim (Bool-cases (
        kind_eq kind k
        && (kind_valid kind
            && (not (is_empty s) && (valid_plan net sha256 plan && kind_eq plan.kind kind))))) [
              | inl g ↦ (ground (arith, g), ground (arith, g, h))
              | inr g ↦ last_store-valid earlier kind e (ground (arith, g, h))
            ]

  -- The record agrees with the calls.
  abbrev Tells : List (ℕ × CacheCall) → Entries → Type 0
  Tells earlier last = (kind : Kind) → last kind ≡ last_store earlier kind

  lookup_last-fresh :
      (ttl now : ℕ) (kind : Kind) (seal : Bytes) (earlier : List (ℕ × CacheCall)) (last : Entries)
      → Tells earlier last
      → lookup_last ttl now kind seal last ≡ fresh ttl now seal (last_store earlier kind)
  unfolding lookup_last fresh
  lookup_last-fresh ttl now kind seal earlier last a =
      elim (Option-cases (last_store earlier kind)) [
        | inl h ↦ ground (arith, h, a kind)
        | inr (e, h) ↦
            let (v, s) = last_store-valid earlier kind e h in
            ground (arith, h, a kind, v, s, bytes_eq_iff e.seal seal)
      ]

  store-Tells :
      (now : ℕ) (k : Kind) (s : Bytes) (plan : AttemptPlan) (results : List ProbeResult)
      (earlier : List (ℕ × CacheCall)) (last : Entries)
      → Tells earlier last
      → Tells
          ((now, store_call k s plan results) ∷ earlier)
          (store net sha256 now k s plan results last)
  unfolding store last_store
  store-Tells now k s plan results earlier last a kind = elim (Bool-cases (kind_eq kind k)) [
    | inl e ↦
        let same = (kind_eq_iff k k).1 refl in
        elim (Bool-cases (storable net sha256 k s plan)) [
          | inl g ↦ rw ((kind_eq_iff kind k).0 e, g, same) refl
          | inr g ↦ rw ((kind_eq_iff kind k).0 e, g, same) (a k)
        ]
    | inr e ↦ elim (Bool-cases (storable net sha256 k s plan)) [
      | inl g ↦ rw (g, e) (a kind)
      | inr g ↦ rw (g, e) (a kind)
    ]
  ]

  answers_last-told :
      (ttl : ℕ) (earlier calls : List (ℕ × CacheCall)) (last : Entries)
      → Tells earlier last
      → answers_last net sha256 ttl calls last ≡ told_answers ttl earlier calls
  unfolding answers_last told_answers last_store
  answers_last-told ttl earlier [] last a = refl
  answers_last-told ttl earlier ((now, store_call kind seal plan results) ∷ rest) last a =
      answers_last-told ttl ((now, store_call kind seal plan results) ∷ earlier) rest
        (store net sha256 now kind seal plan results last)
        (store-Tells now kind seal plan results earlier last a)
  answers_last-told ttl earlier ((now, lookup_call kind seal) ∷ rest) last a =
      rw (lookup_last-fresh ttl now kind seal earlier last a) (
        ap (λ l. fresh ttl now seal (last_store earlier kind) ∷ l)
          (answers_last-told ttl ((now, lookup_call kind seal) ∷ earlier) rest last a))

  -- When the clock does not go back, a cache that starts empty answers every lookup among any calls
  -- with the plan and the results of the last earlier call that stored a valid plan of that kind for
  -- that kind under a seal that is not empty, if the seal is the one asked for and less than the time to
  -- live has passed, and else with nothing.
  pub answers-told_answers :
      (ttl : ℕ) (calls : List (ℕ × CacheCall))
      → Ascending 0 calls
      → answers net sha256 ttl calls no_entries ≡ told_answers ttl [] calls
  unfolding last_store
  answers-told_answers ttl calls h =
      answers-answers_last net sha256 ttl calls h
      ∙ answers_last-told ttl [] calls no_entries (λ k. refl)
