-- ===== src/Mirror/Catalog/Build.antt =====
-- The plan of `BuildPlan` holds sound sources with distinct keys, as `validPlan` asks.
use auto_mas_runtime.Base.{
  ◌≡◌, refl, Bool, true, false, not, ◌||◌, ◌&&◌, List, [], ◌∷◌, ◌++◌, Option, Bytes, arith, All,
  All-append, filter, bytes_eq_refl, length, ◌==◌,
}
use auto_mas_runtime.Mirror.Source.{Kind, kind_valid, UrlPackage, Source}
use auto_mas_runtime.Mirror.Catalog.{
  Catalog, Policy, Preferred, AttemptPlan, built, preferred_ok, preferred_key, is_preferred,
  ordered, valid_policy, validate_catalog, build_online, new_plan, plan_seal, valid_plan,
}
use auto_mas_runtime.Mirror.Catalog.Distinct.{
  OtherKey, Distinct, IsSound, All-filter, Apart, Distinct-filter, Distinct-append, Apart-filter,
  plan_sources_ok_complete,
}
use auto_mas_runtime.Mirror.Catalog.Order.{is_mirror, is_last, everywhere}
use auto_mas_runtime.Mirror.Catalog.Attempts.{tail_of}

Apart-append : (l m n : List Source) → Apart l m → Apart l n → Apart l (m ++ n)
Apart-append [] m n a b = tt
Apart-append (s ∷ l) m n a b = (All-append (OtherKey s.key) m n a.0 b.0, Apart-append l m n a.1 b.1)

Apart-nil : (l : List Source) → Apart l []
Apart-nil [] = tt
Apart-nil (s ∷ l) = (tt, Apart-nil l)

first_not_mirror : (p o : Bool) → (p && not (o || p)) ≡ false
first_not_mirror p o = ground arith

first_not_last : (p o : Bool) → (p && not (not o || p)) ≡ false
first_not_last p o = ground arith

mirror_not_last : (p o : Bool) → (not (o || p) && not (not o || p)) ≡ false
mirror_not_last p o = ground arith

module _ (preferred : Option Bytes) (l : List Source) (d : Distinct l) where
  abbrev first_test : Source → Bool
  first_test s = is_preferred preferred s

  Apart-tail :
      (p : Source → Bool)
      → ((s : Source) → (p s && is_last preferred s) ≡ false)
      → (mirror_only : Bool) → Apart (filter p l) (tail_of preferred l mirror_only)
  Apart-tail p x true = Apart-nil (filter p l)
  Apart-tail p x false = Apart-filter p (is_last preferred) l x d

  Distinct-tail : (mirror_only : Bool) → Distinct (tail_of preferred l mirror_only)
  Distinct-tail true = tt
  Distinct-tail false = Distinct-filter (is_last preferred) l d

  pub parts-Distinct :
      (mirror_only : Bool)
      → Distinct (
          filter (is_preferred preferred) l
          ++ (filter (is_mirror preferred) l ++ tail_of preferred l mirror_only))
  parts-Distinct mirror_only =
      let p = is_preferred preferred in
      let firsts = filter (is_preferred preferred) l in
      let mirrors = filter (is_mirror preferred) l in
      let t = tail_of preferred l mirror_only in
      Distinct-append firsts (mirrors ++ t) (Distinct-filter p l d)
        (Distinct-append mirrors t (Distinct-filter (is_mirror preferred) l d)
          (Distinct-tail mirror_only)
          (Apart-tail (is_mirror preferred) (λ s. mirror_not_last (p s) s.official) mirror_only))
        (Apart-append firsts mirrors t
          (Apart-filter p (is_mirror preferred) l (λ s. first_not_mirror (p s) s.official) d)
          (Apart-tail p (λ s. first_not_last (p s) s.official) mirror_only))

pub parts-IsSound :
    (net : UrlPackage) (kind : Kind) (preferred : Option Bytes) (l : List Source)
    (mirror_only : Bool)
    → All (IsSound net kind) l
    → All (IsSound net kind) (
        filter (is_preferred preferred) l
        ++ (filter (is_mirror preferred) l ++ tail_of preferred l mirror_only))
parts-IsSound net kind preferred l mirror_only a =
    let P = IsSound net kind in
    All-append P (filter (is_preferred preferred) l)
      (filter (is_mirror preferred) l ++ tail_of preferred l mirror_only)
      (All-filter P (is_preferred preferred) l a)
      (All-append P (filter (is_mirror preferred) l) (tail_of preferred l mirror_only)
        (All-filter P (is_mirror preferred) l a) (tail mirror_only))
  where
    tail : (m : Bool) → All (IsSound net kind) (tail_of preferred l m)
    tail true = tt
    tail false = All-filter (IsSound net kind) (is_last preferred) l a

module _ (net : UrlPackage) (sha256 : Bytes → Bytes) where
  -- A plan made of sound sources with distinct keys passes `validPlan`.
  pub new_plan_valid :
      (kind : Kind) (sources : List Source)
      → kind_valid kind ≡ true
      → (length sources == 0) ≡ false
      → All (IsSound net kind) sources
      → Distinct sources
      → valid_plan net sha256 (new_plan sha256 kind sources false) ≡ true
  unfolding valid_plan new_plan
  new_plan_valid kind sources v n a d = ground (
    arith,
    bytes_eq_refl (plan_seal sha256 kind sources false),
    plan_sources_ok_complete net kind sources [] a d
        (everywhere (λ s. false ≡ false) sources (λ s. refl)),
  )

  -- The conditions under which `BuildPlan` looks at its catalog.
  abbrev pub accepts : Catalog → Policy → Kind → Bool
  accepts catalog policy kind =
      kind_valid kind && (valid_policy policy && validate_catalog net catalog)

  pub online_built :
      (catalog : Catalog) (preferred : Preferred) (mirror_only : Bool) (kind : Kind)
      (plan : AttemptPlan)
      → build_online net sha256 catalog preferred mirror_only kind ≡ built plan
      → (preferred_ok catalog mirror_only preferred ≡ true)
        × ((length (ordered catalog mirror_only kind (preferred_key kind preferred)) == 0) ≡ false)
        × (plan
            ≡ new_plan sha256 kind
                (ordered catalog mirror_only kind (preferred_key kind preferred))
                false)
  unfolding build_online
  online_built catalog preferred mirror_only kind plan h =
      (ground arith, ground arith, ground arith)
