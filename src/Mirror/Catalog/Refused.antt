-- ===== src/Mirror/Catalog/Refused.antt =====
-- internal/mirror/policy.go: which preferences of a policy are refused, told of the catalog's lists.
use auto_mas_runtime.Base.{
  ◌≡◌, refl, subst, Bool, true, false, not, ◌&&◌, ◌||◌, List, [], ◌∷◌, some, none, Bytes, arith,
  All, all, any, bytes_eq, bytes_eq_iff, Bool-cases, Option-cases, inl, inr,
}
use auto_mas_runtime.Mirror.Source.{Kind, UrlPackage, Source}
use auto_mas_runtime.Mirror.Catalog.{
  Catalog, Preferred, find_key, catalog_source, preferred_ok, validate_catalog, entry_ok,
}
use auto_mas_runtime.Mirror.Catalog.Distinct.{OtherKey, Distinct}
use auto_mas_runtime.Mirror.Catalog.Attempts.{catalog-IsSound}

-- No source of the list has the key.
abbrev pub unknown_key : Bytes → List Source → Bool
unknown_key key l = all (λ s. not (bytes_eq s.key key)) l

-- An official source of the list has the key.
abbrev pub official_key : Bytes → List Source → Bool
official_key key l = any (λ s. bytes_eq s.key key && s.official) l

-- A preference for a source that the catalog does not have, or for an official one when only mirrors
-- are wanted.
abbrev pub bad_preference : Catalog → Bool → Kind × Bytes → Bool
bad_preference catalog mirror_only e =
    unknown_key e.1 (catalog.sources e.0) || mirror_only && official_key e.1 (catalog.sources e.0)

find_key-none : (key : Bytes) (l : List Source) → find_key key l ≡ none → unknown_key key l ≡ true
unfolding find_key
find_key-none key [] h = refl
find_key-none key (s ∷ l) h = ground (arith, h, find_key-none key l)

others_official :
    (key : Bytes) (l : List Source) → All (OtherKey key) l → official_key key l ≡ false
others_official key [] h = refl
others_official key (s ∷ l) h = ground (arith, h.0, others_official key l h.1)

find_key-some :
    (key : Bytes) (l : List Source) (found : Source)
    → Distinct l
    → find_key key l ≡ some found
    → (unknown_key key l ≡ false) × (official_key key l ≡ found.official)
unfolding find_key
find_key-some key [] found d h = absurd (ground (arith, h))
find_key-some key (s ∷ l) found d h = elim (Bool-cases (bytes_eq s.key key)) [
  | inl e ↦
      let same = (bytes_eq_iff s.key key).0 e in
      let none_else = others_official key l (subst (λ k. All (OtherKey k) l) same d.0) in
      let first : s ≡ found = ground (arith, h, e) in
      rw (e, none_else) (refl, ground (arith, first))
  | inr e ↦ rw e (find_key-some key l found d.1 (ground (arith, h, e)))
]

module _ (net : UrlPackage) (catalog : Catalog) (c : validate_catalog net catalog ≡ true)
    (mirror_only : Bool) where
  pub preferred_ok-bad_preference :
      (preferred : Preferred)
      → all entry_ok preferred ≡ true
      → preferred_ok catalog mirror_only preferred
        ≡ not (any (bad_preference catalog mirror_only) preferred)
  unfolding preferred_ok catalog_source
  preferred_ok-bad_preference [] h = refl
  preferred_ok-bad_preference ((kind, key) ∷ rest) h =
      let next = preferred_ok-bad_preference rest (ground (arith, h)) in
      let d = (catalog-IsSound net catalog kind c (ground (arith, h))).1 in
      elim (Option-cases (find_key key (catalog.sources kind))) [
        | inl e ↦ ground (arith, h, e, find_key-none key (catalog.sources kind) e)
        | inr (s, e) ↦
            let (known, official) = find_key-some key (catalog.sources kind) s d e in
            ground (arith, h, e, known, official, next)
      ]
