-- ===== src/Mirror/Catalog/Distinct.antt =====
-- Sources with distinct keys: what the checks of `validateCatalog` and `validPlan` establish.
use mathlib.Core.Path.{subst₂}
use auto_mas_runtime.Base.{
  ℕ, ◌+◌, ◌≡◌, refl, sym, Bool, true, false, ◌&&◌, List, [], ◌∷◌, ◌++◌, some, Bytes, arith, All,
  All-append, filter, bytes_eq, bytes_eq_iff, if◌then◌else◌, Bool-cases, inl, inr,
}
use auto_mas_runtime.Mirror.Source.{Kind, kind_eq, UrlPackage, Source, validate_source}
use auto_mas_runtime.Mirror.Catalog.{mem_key, check_sources, plan_sources_ok}

abbrev pub OtherKey : Bytes → Source → Type 0
OtherKey key s = bytes_eq s.key key ≡ false

abbrev pub Distinct : List Source → Type 0
Distinct [] = Unit
Distinct (s ∷ l) = All (OtherKey s.key) l × Distinct l

-- A source of the kind that passes validation.
abbrev pub IsSound : UrlPackage → Kind → Source → Type 0
IsSound net kind s = (validate_source net s ≡ true) × (kind_eq s.kind kind ≡ true)

-- No key of the list is among `keys`.
abbrev pub Outside : List Bytes → List Source → Type 0
Outside keys l = All (λ s. mem_key s.key keys ≡ false) l

pub bytes_eq_sym : (a b : Bytes) → bytes_eq a b ≡ false → bytes_eq b a ≡ false
bytes_eq_sym a b h = ground (arith, bytes_eq_iff a b, bytes_eq_iff b a)

Outside-cons :
    (key : Bytes) (keys : List Bytes) (l : List Source)
    → Outside (key ∷ keys) l
    → All (OtherKey key) l × Outside keys l
Outside-cons key keys [] h = (tt, tt)
Outside-cons key keys (s ∷ l) h =
    let (a, b) = Outside-cons key keys l h.1 in
    (
      (ground (arith, h.0, bytes_eq_iff key s.key, bytes_eq_iff s.key key), a),
      (ground (arith, h.0), b),
    )

Outside-push :
    (key : Bytes) (keys : List Bytes) (l : List Source)
    → All (OtherKey key) l
    → Outside keys l
    → Outside (key ∷ keys) l
Outside-push key keys [] a b = tt
Outside-push key keys (s ∷ l) a b = (
  ground (arith, a.0, b.0, bytes_eq_iff key s.key, bytes_eq_iff s.key key),
  Outside-push key keys l a.1 b.1,
)

module _ (net : UrlPackage) (kind : Kind) where
  -- What `validateCatalog` found when its loop ran to the end.
  pub check_sources-IsSound :
      (l : List Source) (keys : List Bytes) (n : ℕ) {m : ℕ}
      → check_sources net kind l keys n ≡ some m
      → All (IsSound net kind) l × Distinct l × Outside keys l
  unfolding check_sources
  check_sources-IsSound [] keys n h = (tt, tt, tt)
  check_sources-IsSound (s ∷ l) keys n {m} h =
      let (ok, d, o) =
        check_sources-IsSound l (s.key ∷ keys) (if s.official then n + 1 else n) {m = m}
          (ground arith) in
      let (a, b) = Outside-cons s.key keys l o in
      (((ground arith, ground arith), ok), (a, d), (ground arith, b))

  -- What `validPlan` found when its loop ran to the end.
  pub plan_sources_ok-IsSound :
      (l : List Source) (keys : List Bytes)
      → plan_sources_ok net kind l keys ≡ true
      → All (IsSound net kind) l × Distinct l × Outside keys l
  unfolding plan_sources_ok
  plan_sources_ok-IsSound [] keys h = (tt, tt, tt)
  plan_sources_ok-IsSound (s ∷ l) keys h =
      let (ok, d, o) = plan_sources_ok-IsSound l (s.key ∷ keys) (ground arith) in
      let (a, b) = Outside-cons s.key keys l o in
      (((ground arith, ground arith), ok), (a, d), (ground arith, b))

  -- Sound sources with distinct keys pass the loop of `validPlan`.
  pub plan_sources_ok_complete :
      (l : List Source) (keys : List Bytes)
      → All (IsSound net kind) l
      → Distinct l
      → Outside keys l
      → plan_sources_ok net kind l keys ≡ true
  unfolding plan_sources_ok
  plan_sources_ok_complete [] keys ok d o = refl
  plan_sources_ok_complete (s ∷ l) keys ok d o = ground (
    arith,
    ok.0,
    o.0,
    plan_sources_ok_complete l (s.key ∷ keys) ok.1 d.1 (Outside-push s.key keys l d.0 o.1),
  )

pub All-filter {κ} :
    (P : Source → Type κ) (p : Source → Bool) (l : List Source) → All P l → All P (filter p l)
All-filter P p [] h = tt
All-filter P p (s ∷ l) h = elim (Bool-cases (p s)) [
  | inl e ↦ rw e (h.0, All-filter P p l h.1)
  | inr e ↦ rw e (All-filter P p l h.1)
]

-- Two lists that hold no key in common.
abbrev pub Apart : List Source → List Source → Type 0
Apart l m = All (λ s. All (OtherKey s.key) m) l

pub Distinct-filter : (p : Source → Bool) (l : List Source) → Distinct l → Distinct (filter p l)
Distinct-filter p [] d = tt
Distinct-filter p (s ∷ l) d = elim (Bool-cases (p s)) [
  | inl e ↦ rw e (All-filter (OtherKey s.key) p l d.0, Distinct-filter p l d.1)
  | inr e ↦ rw e (Distinct-filter p l d.1)
]

pub Distinct-append : (l m : List Source) → Distinct l → Distinct m → Apart l m → Distinct (l ++ m)
Distinct-append [] m dl dm a = dm
Distinct-append (s ∷ l) m dl dm a =
    (All-append (OtherKey s.key) l m dl.0 a.0, Distinct-append l m dl.1 dm a.1)

Apart-push : (s : Source) (l m : List Source) → All (OtherKey s.key) l → Apart l m → Apart l (s ∷ m)
Apart-push s [] m o a = tt
Apart-push s (t ∷ l) m o a = ((bytes_eq_sym t.key s.key o.0, a.0), Apart-push s l m o.1 a.1)

pub filter_keep :
    (p : Source → Bool) (s : Source) (l : List Source)
    → p s ≡ true
    → filter p (s ∷ l) ≡ s ∷ filter p l
filter_keep p s l e = rw e

pub filter_skip :
    (p : Source → Bool) (s : Source) (l : List Source) → p s ≡ false → filter p (s ∷ l) ≡ filter p l
filter_skip p s l e = rw e

pub only_first : (a b : Bool) → a ≡ true → (a && b) ≡ false → b ≡ false
only_first a b h k = ground arith

-- Two tests that no source passes both of cut a list into parts that are apart.
pub Apart-filter :
    (p q : Source → Bool) (l : List Source)
    → ((s : Source) → (p s && q s) ≡ false)
    → Distinct l
    → Apart (filter p l) (filter q l)
Apart-filter p q [] x d = tt
Apart-filter p q (s ∷ l) x d = elim (Bool-cases (p s)) [
  | inl e ↦
      subst₂ Apart (sym (filter_keep p s l e))
        (sym (filter_skip q s l (only_first (p s) (q s) e (x s))))
        (All-filter (OtherKey s.key) q l d.0, Apart-filter p q l x d.1)
  | inr e ↦ elim (Bool-cases (q s)) [
    | inl f ↦ subst₂ Apart (sym (filter_skip p s l e)) (sym (filter_keep q s l f)) (
        Apart-push s (filter p l) (filter q l) (All-filter (OtherKey s.key) p l d.0)
          (Apart-filter p q l x d.1))
    | inr f ↦
        subst₂ Apart (sym (filter_skip p s l e)) (sym (filter_skip q s l f))
          (Apart-filter p q l x d.1)
  ]
]
