-- ===== src/Mirror/Catalog/Attempts.antt =====
-- What `BuildPlan` returns: the order of the attempts, and a plan that `validPlan` accepts.
use mathlib.Core.List.{Perm, append-nil}
use auto_mas_runtime.Base.{
  ℕ, ◌≤◌, ◌≡◌, refl, subst, Bool, true, false, not, ◌||◌, List, [], ◌∷◌, ◌++◌, Option, Bytes, arith,
  All, All-append, All-imp, filter, if◌then◌else◌, Bool-cases, Option-cases, inl, inr,
}
use auto_mas_runtime.Mirror.Source.{
  Kind, kind_valid, UrlPackage, Source, git, uv, python, package_index, other,
}
use auto_mas_runtime.Mirror.Catalog.{
  Catalog, is_preferred, ordered, validate_catalog, check_sources, check_kind,
}
use auto_mas_runtime.Mirror.Catalog.Distinct.{Distinct, IsSound, check_sources-IsSound}
use auto_mas_runtime.Mirror.Catalog.Order.{
  Available, first_choice_lem, is_mirror, is_last, allowed, filter_split, filter_agree, parts_cover,
  chosen_is_mirror, disjoint_mirror, filter_every, everywhere,
}

-- The preferred source comes first, then the mirrors, then the official source.
abbrev pub level_of : Bool → Bool → ℕ
level_of first official = if first then 0 else if official then 2 else 1

abbrev pub level : Option Bytes → Source → ℕ
level preferred s = level_of (is_preferred preferred s) s.official

abbrev pub Ranked : Option Bytes → List Source → Type 0
Ranked preferred [] = Unit
Ranked preferred (s ∷ l) = All (λ t. level preferred s ≤ level preferred t) l × Ranked preferred l

All-level :
    (preferred : Option Bytes) (s : Source) (n : ℕ) (l : List Source)
    → level preferred s ≤ n
    → All (λ t. n ≤ level preferred t) l
    → All (λ t. level preferred s ≤ level preferred t) l
All-level preferred s n [] h k = tt
All-level preferred s n (t ∷ l) h k = (omega (arith, h, k.0), All-level preferred s n l h k.1)

Ranked-append :
    (preferred : Option Bytes) (n : ℕ) (l m : List Source)
    → Ranked preferred l
    → Ranked preferred m
    → All (λ s. level preferred s ≤ n) l
    → All (λ t. n ≤ level preferred t) m
    → Ranked preferred (l ++ m)
Ranked-append preferred n [] m rl rm a b = rm
Ranked-append preferred n (s ∷ l) m rl rm a b = (
  All-append (λ t. level preferred s ≤ level preferred t) l m rl.0
      (All-level preferred s n m a.0 b),
  Ranked-append preferred n l m rl.1 rm a.1 b,
)

-- What a test selects passes what the test implies.
select :
    (p : Source → Bool) (P : Source → Type 0) (l : List Source)
    → ((s : Source) → p s ≡ true → P s)
    → All P (filter p l)
select p P [] h = tt
select p P (s ∷ l) h = elim (Bool-cases (p s)) [
  | inl e ↦ rw e (h s e, select p P l h)
  | inr e ↦ rw e (select p P l h)
]

same_level :
    (preferred : Option Bytes) (n : ℕ) (l : List Source)
    → All (λ s. level preferred s ≡ n) l
    → Ranked preferred l
same_level preferred n [] h = tt
same_level preferred n (s ∷ l) h = (
  All-level preferred s n l (omega (arith, h.0)) (
      All-imp (λ t. level preferred t ≡ n) (λ t. n ≤ level preferred t) l (λ t e. omega (arith, e))
        h.1),
  same_level preferred n l h.1,
)

level_first : (p o : Bool) → p ≡ true → level_of p o ≡ 0
level_first p o h = ground arith

level_mirror : (p o : Bool) → not (o || p) ≡ true → level_of p o ≡ 1
level_mirror p o h = ground arith

level_last : (p o : Bool) → not (not o || p) ≡ true → level_of p o ≡ 2
level_last p o h = ground arith

module _ (preferred : Option Bytes) (l : List Source) where
  first_part : All (λ s. level preferred s ≡ 0) (filter (is_preferred preferred) l)
  first_part =
      select (is_preferred preferred) (λ s. level preferred s ≡ 0) l
        (λ s. level_first (is_preferred preferred s) s.official)

  mirror_part : All (λ s. level preferred s ≡ 1) (filter (is_mirror preferred) l)
  mirror_part =
      select (is_mirror preferred) (λ s. level preferred s ≡ 1) l
        (λ s. level_mirror (is_preferred preferred s) s.official)

  last_part : All (λ s. level preferred s ≡ 2) (filter (is_last preferred) l)
  last_part =
      select (is_last preferred) (λ s. level preferred s ≡ 2) l
        (λ s. level_last (is_preferred preferred s) s.official)

  abbrev pub tail_of : Bool → List Source
  tail_of mirror_only = if mirror_only then [] else filter (is_last preferred) l

  tail_level : (mirror_only : Bool) → All (λ s. level preferred s ≡ 2) (tail_of mirror_only)
  tail_level true = tt
  tail_level false = last_part

  parts-Ranked :
      (mirror_only : Bool)
      → Ranked preferred (
          filter (is_preferred preferred) l
          ++ (filter (is_mirror preferred) l ++ tail_of mirror_only))
  parts-Ranked mirror_only =
      let t = tail_level mirror_only in
      let mirrors =
        Ranked-append preferred 1 (filter (is_mirror preferred) l) (tail_of mirror_only)
          (same_level preferred 1 (filter (is_mirror preferred) l) mirror_part)
          (same_level preferred 2 (tail_of mirror_only) t)
          (All-imp (λ s. level preferred s ≡ 1) (λ s. level preferred s ≤ 1)
            (filter (is_mirror preferred) l) (λ s e. omega (arith, e)) mirror_part)
          (All-imp (λ s. level preferred s ≡ 2) (λ s. 1 ≤ level preferred s) (tail_of mirror_only)
            (λ s e. omega (arith, e)) t) in
      Ranked-append preferred 0 (filter (is_preferred preferred) l)
        (filter (is_mirror preferred) l ++ tail_of mirror_only)
        (same_level preferred 0 (filter (is_preferred preferred) l) first_part) mirrors
        (All-imp (λ s. level preferred s ≡ 0) (λ s. level preferred s ≤ 0)
          (filter (is_preferred preferred) l) (λ s e. omega (arith, e)) first_part)
        (everywhere (λ s. 0 ≤ level preferred s)
          (filter (is_mirror preferred) l ++ tail_of mirror_only) (λ s. omega arith))

-- What a catalog that `validateCatalog` accepts holds of a kind.
catalog_kind :
    (net : UrlPackage) (catalog : Catalog) (kind : Kind)
    → validate_catalog net catalog ≡ true
    → kind_valid kind ≡ true
    → check_kind net catalog kind ≡ true
unfolding validate_catalog kind_valid
catalog_kind net catalog git h v = ground arith
catalog_kind net catalog uv h v = ground arith
catalog_kind net catalog python h v = ground arith
catalog_kind net catalog package_index h v = ground arith
catalog_kind net catalog (other s) h v = cc

pub catalog-IsSound :
    (net : UrlPackage) (catalog : Catalog) (kind : Kind)
    → validate_catalog net catalog ≡ true
    → kind_valid kind ≡ true
    → All (IsSound net kind) (catalog.sources kind) × Distinct (catalog.sources kind)
unfolding check_kind
catalog-IsSound net catalog kind h v =
    let k = catalog_kind net catalog kind h v in
    elim (Option-cases (check_sources net kind (catalog.sources kind) [] 0)) [
      | inl e ↦ absurd (ground arith)
      | inr (n, e) ↦
          let (a, d, o) = check_sources-IsSound net kind (catalog.sources kind) [] 0 {m = n} e in
          (a, d)
    ]

module _ (catalog : Catalog) (kind : Kind) (preferred : Option Bytes)
    (d : Distinct (catalog.sources kind)) where
  pub ordered_parts :
      (mirror_only : Bool)
      → Available catalog mirror_only kind preferred
      → ordered catalog mirror_only kind preferred
        ≡ filter (is_preferred preferred) (catalog.sources kind)
          ++ (filter (is_mirror preferred) (catalog.sources kind)
              ++ tail_of preferred (catalog.sources kind) mirror_only)
  unfolding ordered
  ordered_parts mirror_only h = rw (first_choice_lem catalog kind d mirror_only preferred h) refl

  pub ordered-Ranked :
      (mirror_only : Bool)
      → Available catalog mirror_only kind preferred
      → Ranked preferred (ordered catalog mirror_only kind preferred)
  ordered-Ranked mirror_only h =
      rw (ordered_parts mirror_only h) (parts-Ranked preferred (catalog.sources kind) mirror_only)

  pub ordered-Perm :
      (mirror_only : Bool)
      → Available catalog mirror_only kind preferred
      → Perm
          (ordered catalog mirror_only kind preferred)
          (filter (allowed mirror_only) (catalog.sources kind))
  ordered-Perm true h =
      let l = catalog.sources kind in
      let p = is_preferred preferred in
      rw (ordered_parts true h, append-nil (filter (is_mirror preferred) l))
        (subst (Perm (filter p l ++ filter (is_mirror preferred) l))
          (filter_agree (λ s. p s || is_mirror preferred s) (allowed true) l
            (chosen_is_mirror catalog kind preferred d h))
          (filter_split p (is_mirror preferred) l (λ s. disjoint_mirror (p s) s.official)))
  ordered-Perm false h =
      rw (ordered_parts false h, filter_every (catalog.sources kind))
        (parts_cover preferred (catalog.sources kind))
