-- ===== src/Mirror/Cache/Remembers.antt =====
-- internal/mirror/probecache.go: the cache answers like a record of the last store of each kind.
use Prim.{Unit}
use auto_mas_runtime.Base.{
  ℕ, ◌≤◌, ◌≡◌, refl, ap, sym, ◌∙◌, ◌⊎◌, inl, inr, true, not, ◌||◌, List, [], ◌∷◌, Option, none,
  some, Bytes, bytes_eq, is_empty, if◌then◌else◌, arith, Bool-cases, Option-cases,
}
use auto_mas_runtime.Mirror.Source.{UrlPackage, Kind, kind_eq, kind_eq_iff, kind_valid}
use auto_mas_runtime.Mirror.Catalog.{AttemptPlan}
use auto_mas_runtime.Mirror.Rank.{ProbeResult}
use auto_mas_runtime.Mirror.Cache.{
  CachedRanking, Entries, set_entry, Hit, expired, lookup, storable, store,
}

pub data CacheCall : Type 0 where
  store_call : Kind → Bytes → AttemptPlan → List ProbeResult → CacheCall
  lookup_call : Kind → Bytes → CacheCall

-- A lookup in a record that never forgets: the last store of the kind answers, when its seal is the one
-- asked for and it is not too old.
unfoldable pub lookup_last : ℕ → ℕ → Kind → Bytes → Entries → Option Hit
lookup_last ttl now kind seal last =
    if not (kind_valid kind) || is_empty seal then none else elim (last kind) [
      | none ↦ none
      | some entry ↦
          if not (bytes_eq entry.seal seal) || expired ttl now entry
          then none
          else some (entry.plan, entry.results)
    ]

-- What is in the cache is the last store, unless that store is too old.
abbrev Agrees : ℕ → ℕ → Entries → Entries → Type 0
Agrees ttl now cache last =
    (k : Kind)
    → (cache k ≡ last k)
      ⊎ ((e : CachedRanking) × (cache k ≡ none) × (last k ≡ some e) × (expired ttl now e ≡ true))

Agrees-later :
    (ttl now later : ℕ) (cache last : Entries)
    → now ≤ later
    → Agrees ttl now cache last
    → Agrees ttl later cache last
Agrees-later ttl now later cache last h a k = elim (a k) [
  | inl e ↦ inl e
  | inr (e, c, l, x) ↦ inr (e, c, l, ground (arith, x, h))
]

lookup_answer :
    (ttl now : ℕ) (kind : Kind) (seal : Bytes) (cache last : Entries)
    → Agrees ttl now cache last
    → (lookup ttl now kind seal cache).0 ≡ lookup_last ttl now kind seal last
unfolding lookup lookup_last
lookup_answer ttl now kind seal cache last a = elim (a kind) [
  | inl e ↦ ground (arith, e)
  | inr (e, c, l, x) ↦ ground (arith, c, l, x)
]

lookup-Agrees :
    (ttl now : ℕ) (kind : Kind) (seal : Bytes) (cache last : Entries)
    → Agrees ttl now cache last
    → Agrees ttl now (lookup ttl now kind seal cache).1 last
unfolding lookup
lookup-Agrees ttl now kind seal cache last a k =
    elim (Bool-cases (not (kind_valid kind) || is_empty seal)) [
      | inl h ↦ rw h (a k)
      | inr h ↦ elim (Option-cases (cache kind)) [
        | inl c ↦ rw (h, c) (a k)
        | inr (e, c) ↦ elim (Bool-cases (not (bytes_eq e.seal seal))) [
          | inl q ↦ rw (h, c, q) (a k)
          | inr q ↦ elim (Bool-cases (expired ttl now e)) [
            | inr x ↦ rw (h, c, q, x) (a k)
            | inl x ↦ rw (h, c, q, x) (forgotten e c x k)
          ]
        ]
      ]
    ]
  where
    remembered : (e : CachedRanking) → cache kind ≡ some e → last kind ≡ some e
    remembered e c = elim (a kind) [
      | inl f ↦ sym f ∙ c
      | inr (g, f, l, x) ↦ absurd (ground (arith, c, f))
    ]

    forgotten :
        (e : CachedRanking)
        → cache kind ≡ some e
        → expired ttl now e ≡ true
        → Agrees ttl now (set_entry kind none cache) last
    forgotten e c x k = elim (Bool-cases (kind_eq k kind)) [
      | inr n ↦ rw n (a k)
      | inl n ↦ rw n (inr (e, refl, ap last ((kind_eq_iff k kind).0 n) ∙ remembered e c, x))
    ]

abbrev pub no_entries : Entries
no_entries k = none

-- The clock of the calls does not go back.
abbrev pub Ascending : ℕ → List (ℕ × CacheCall) → Type 0
Ascending now [] = Unit {0}
Ascending now ((later, c) ∷ rest) = (now ≤ later) × Ascending later rest

module _ (net : UrlPackage) (sha256 : Bytes → Bytes) (ttl : ℕ) where
  store-Agrees :
      (now : ℕ) (kind : Kind) (seal : Bytes) (plan : AttemptPlan) (results : List ProbeResult)
      (cache last : Entries)
      → Agrees ttl now cache last
      → Agrees ttl now
          (store net sha256 now kind seal plan results cache)
          (store net sha256 now kind seal plan results last)
  unfolding store
  store-Agrees now kind seal plan results cache last a k =
      elim (Bool-cases (storable net sha256 kind seal plan)) [
        | inr h ↦ rw h (a k)
        | inl h ↦ elim (Bool-cases (kind_eq k kind)) [
          | inl n ↦ rw (h, n) (inl refl)
          | inr n ↦ rw (h, n) (a k)
        ]
      ]

  -- The answers of the cache to timed calls.
  unfoldable pub answers : List (ℕ × CacheCall) → Entries → List (Option Hit)
  answers [] cache = []
  answers ((now, store_call kind seal plan results) ∷ rest) cache =
      answers rest (store net sha256 now kind seal plan results cache)
  answers ((now, lookup_call kind seal) ∷ rest) cache =
      let found = lookup ttl now kind seal cache in found.0 ∷ answers rest found.1

  -- The answers of a record that never forgets.
  unfoldable pub answers_last : List (ℕ × CacheCall) → Entries → List (Option Hit)
  answers_last [] last = []
  answers_last ((now, store_call kind seal plan results) ∷ rest) last =
      answers_last rest (store net sha256 now kind seal plan results last)
  answers_last ((now, lookup_call kind seal) ∷ rest) last =
      lookup_last ttl now kind seal last ∷ answers_last rest last

  answers-Agrees :
      (now : ℕ) (calls : List (ℕ × CacheCall)) (cache last : Entries)
      → Ascending now calls
      → Agrees ttl now cache last
      → answers calls cache ≡ answers_last calls last
  unfolding answers answers_last
  answers-Agrees now [] cache last h a = refl
  answers-Agrees now ((later, store_call kind seal plan results) ∷ rest) cache last h a =
      answers-Agrees later rest (store net sha256 later kind seal plan results cache)
        (store net sha256 later kind seal plan results last) h.1
        (store-Agrees later kind seal plan results cache last
          (Agrees-later ttl now later cache last h.0 a))
  answers-Agrees now ((later, lookup_call kind seal) ∷ rest) cache last h a =
      let a' = Agrees-later ttl now later cache last h.0 a in
      rw (lookup_answer ttl later kind seal cache last a') (
        ap (λ l. lookup_last ttl later kind seal last ∷ l)
          (answers-Agrees later rest (lookup ttl later kind seal cache).1 last h.1
            (lookup-Agrees ttl later kind seal cache last a')))

  -- When the clock does not go back, a cache that starts empty answers every sequence of calls as a record
  -- does that takes the same stores and never forgets.
  pub answers-answers_last :
      (calls : List (ℕ × CacheCall))
      → Ascending 0 calls
      → answers calls no_entries ≡ answers_last calls no_entries
  answers-answers_last calls h = answers-Agrees 0 calls no_entries no_entries h (λ k. inl refl)
