-- ===== src/Mirror/Catalog/Order.antt =====
-- Which sources the order of attempts holds, by the tests that select its parts.
use mathlib.Core.List.{Perm, perm_middle}
use mathlib.Core.List.Perm
use auto_mas_runtime.Base.{
  ◌≡◌, refl, ap, sym, ◌∙◌, subst, Bool, true, false, not, ◌||◌, ◌&&◌, List, [], ◌∷◌, ◌++◌, Option,
  none, some, Bytes, arith, All, filter, bytes_eq, bytes_eq_iff, Bool-cases, Option-cases, inl, inr,
}
use auto_mas_runtime.Mirror.Source.{Kind, kind_eq, kind_eq_iff, Source}
use auto_mas_runtime.Mirror.Catalog.{
  Catalog, Preferred, find_key, catalog_source, preferred_ok, preferred_key, is_preferred,
  first_choice,
}
use auto_mas_runtime.Mirror.Catalog.Distinct.{OtherKey, Distinct, only_first}

-- Two tests that no source passes both of select together what their disjunction selects.
pub filter_split :
    (a b : Source → Bool) (l : List Source)
    → ((s : Source) → (a s && b s) ≡ false)
    → Perm (filter a l ++ filter b l) (filter (λ s. a s || b s) l)
filter_split a b [] x = Perm.refl []
filter_split a b (s ∷ l) x = elim (Bool-cases (a s)) [
  | inl e ↦ rw (e, only_first (a s) (b s) e (x s)) (Perm.cons s (filter_split a b l x))
  | inr e ↦ elim (Bool-cases (b s)) [
    | inl f ↦
        rw (e, f)
          (Perm.trans (perm_middle (filter a l) (filter b l)) (Perm.cons s (filter_split a b l x)))
    | inr f ↦ rw (e, f) (filter_split a b l x)
  ]
]

-- Tests that agree on every source of a list select the same.
pub filter_agree :
    (a b : Source → Bool) (l : List Source) → All (λ s. a s ≡ b s) l → filter a l ≡ filter b l
filter_agree a b [] h = refl
filter_agree a b (s ∷ l) h = rw (h.0, filter_agree a b l h.1)

pub filter_every : (l : List Source) → filter (λ s. true) l ≡ l
filter_every [] = refl
filter_every (s ∷ l) = ap (λ m. s ∷ m) (filter_every l)

pub everywhere : (P : Source → Type 0) (l : List Source) → ((s : Source) → P s) → All P l
everywhere P [] h = tt
everywhere P (s ∷ l) h = (h s, everywhere P l h)

no_other :
    (key : Bytes) (l : List Source) → All (OtherKey key) l → filter (λ s. bytes_eq s.key key) l ≡ []
no_other key [] h = refl
no_other key (s ∷ l) h = rw (h.0, no_other key l h.1)

-- The source found under a key is the only one that has it.
filter_key :
    (key : Bytes) (l : List Source) (found : Source)
    → Distinct l
    → find_key key l ≡ some found
    → filter (λ s. bytes_eq s.key key) l ≡ found ∷ []
unfolding find_key
filter_key key [] found d h = cc
filter_key key (s ∷ l) found d h = elim (Bool-cases (bytes_eq s.key key)) [
  | inl e ↦
      let same = (bytes_eq_iff s.key key).0 e in
      let alone = no_other key l (subst (λ k. All (OtherKey k) l) same d.0) in
      let first : s ≡ found = ground (arith) in rw (e, alone, first) refl
  | inr e ↦ rw e (filter_key key l found d.1 (ground (arith)))
]

no_choice : (l : List Source) → filter (λ s. false) l ≡ []
no_choice [] = refl
no_choice (s ∷ l) = no_choice l

-- The preferred source of the kind, when there is one, is in the catalog; with `mirror_only` it is
-- no official one.
abbrev pub Available : Catalog → Bool → Kind → Option Bytes → Type 0
Available catalog mirror_only kind none = Unit
Available catalog mirror_only kind (some key) =
    (s : Source) × (catalog_source catalog kind key ≡ some s)
    × ((mirror_only && s.official) ≡ false)

pub preferred_ok-Available :
    (catalog : Catalog) (mirror_only : Bool) (kind : Kind) (preferred : Preferred)
    → preferred_ok catalog mirror_only preferred ≡ true
    → Available catalog mirror_only kind (preferred_key kind preferred)
unfolding preferred_ok preferred_key
preferred_ok-Available catalog mirror_only kind [] h = tt
preferred_ok-Available catalog mirror_only kind ((k, key) ∷ rest) h =
    elim (Option-cases (catalog_source catalog k key)) [
      | inl e ↦ absurd (ground arith)
      | inr (s, e) ↦ elim (Bool-cases (kind_eq k kind)) [
        | inl f ↦
            let same = (kind_eq_iff k kind).0 f in
            rw f (s, subst (λ x. catalog_source catalog x key ≡ some s) same e, ground arith)
        | inr f ↦ rw f (preferred_ok-Available catalog mirror_only kind rest (ground arith))
      ]
    ]

catalog_source-find_key :
    (catalog : Catalog) (kind : Kind) (key : Bytes) (s : Source)
    → catalog_source catalog kind key ≡ some s
    → find_key key (catalog.sources kind) ≡ some s
unfolding catalog_source
catalog_source-find_key catalog kind key s h = ground arith

module _ (catalog : Catalog) (kind : Kind) (d : Distinct (catalog.sources kind)) where
  pub first_choice_lem :
      (mirror_only : Bool) (preferred : Option Bytes)
      → Available catalog mirror_only kind preferred
      → first_choice catalog kind preferred ≡ filter (is_preferred preferred) (catalog.sources kind)
  unfolding first_choice
  first_choice_lem mirror_only none h = sym (no_choice (catalog.sources kind))
  first_choice_lem mirror_only (some key) h =
      rw
        (
          first_choice,
          h.1,
          filter_key key (catalog.sources kind) h.0 d
              (catalog_source-find_key catalog kind key h.0 h.1),
        )
        refl

-- The three tests of the order of attempts.
abbrev pub is_mirror : Option Bytes → Source → Bool
is_mirror preferred s = not (s.official || is_preferred preferred s)

abbrev pub is_last : Option Bytes → Source → Bool
is_last preferred s = not (not s.official || is_preferred preferred s)

abbrev pub allowed : Bool → Source → Bool
allowed mirror_only s = not (mirror_only && s.official)

disjoint_last : (p o : Bool) → (not (o || p) && not (not o || p)) ≡ false
disjoint_last p o = ground arith

disjoint_first : (p o : Bool) → (p && (not (o || p) || not (not o || p))) ≡ false
disjoint_first p o = ground arith

pub disjoint_mirror : (p o : Bool) → (p && not (o || p)) ≡ false
disjoint_mirror p o = ground arith

covers : (p o : Bool) → (p || (not (o || p) || not (not o || p))) ≡ true
covers p o = ground arith

-- Every source is in one of the three parts.
pub parts_cover :
    (preferred : Option Bytes) (l : List Source)
    → Perm
        (filter (is_preferred preferred) l
          ++ (filter (is_mirror preferred) l ++ filter (is_last preferred) l))
        l
parts_cover preferred l =
    let p = is_preferred preferred in
    subst (Perm (filter p l ++ (filter (is_mirror preferred) l ++ filter (is_last preferred) l)))
      (filter_agree (λ s. p s || (is_mirror preferred s || is_last preferred s)) (λ s. true) l
          (everywhere (λ s. (p s || (is_mirror preferred s || is_last preferred s)) ≡ true) l
            (λ s. covers (p s) s.official))
        ∙ filter_every l)
      (Perm.trans
        (Perm.append_left (filter p l) (
          filter_split (is_mirror preferred) (is_last preferred) l
            (λ s. disjoint_last (p s) s.official)))
        (filter_split p (λ s. is_mirror preferred s || is_last preferred s) l
          (λ s. disjoint_first (p s) s.official)))

no_preference : (o : Bool) → (false || not (o || false)) ≡ not o
no_preference o = ground arith

mirror_agrees : (p o : Bool) → (p && o) ≡ false → (p || not (o || p)) ≡ not o
mirror_agrees p o h = ground arith

agree_outside :
    (key : Bytes) (l : List Source)
    → All (OtherKey key) l
    → All (λ s. (bytes_eq s.key key || not (s.official || bytes_eq s.key key)) ≡ not s.official) l
agree_outside key [] h = tt
agree_outside key (s ∷ l) h =
    (mirror_agrees (bytes_eq s.key key) s.official (ground (arith, h.0)), agree_outside key l h.1)

agree :
    (key : Bytes) (l : List Source) (found : Source)
    → Distinct l
    → find_key key l ≡ some found
    → (true && found.official) ≡ false
    → All (λ s. (bytes_eq s.key key || not (s.official || bytes_eq s.key key)) ≡ not s.official) l
unfolding find_key
agree key [] found d h m = tt
agree key (s ∷ l) found d h m = elim (Bool-cases (bytes_eq s.key key)) [
  | inl e ↦
      let same = (bytes_eq_iff s.key key).0 e in
      let first : s ≡ found = ground (arith) in
      (
        mirror_agrees (bytes_eq s.key key) s.official (ground (arith, ap (λ x. x.official) first)),
        agree_outside key l (subst (λ k. All (OtherKey k) l) same d.0),
      )
  | inr e ↦ (
    mirror_agrees (bytes_eq s.key key) s.official (ground arith),
    agree key l found d.1 (ground arith) m,
  )
]

-- With `mirror_only` the preferred source is a mirror.
pub chosen_is_mirror :
    (catalog : Catalog) (kind : Kind) (preferred : Option Bytes)
    → Distinct (catalog.sources kind)
    → Available catalog true kind preferred
    → All
        (λ s. (is_preferred preferred s || is_mirror preferred s) ≡ not s.official)
        (catalog.sources kind)
chosen_is_mirror catalog kind none d h =
    everywhere (λ s. (false || is_mirror none s) ≡ not s.official) (catalog.sources kind)
      (λ s. no_preference s.official)
chosen_is_mirror catalog kind (some key) d h =
    agree key (catalog.sources kind) h.0 d (catalog_source-find_key catalog kind key h.0 h.1) h.2
