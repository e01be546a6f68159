-- ===== src/Mirror/Catalog/Plans.antt =====
-- The results of `BuildPlan`: what a plan holds and in which order, and when there is none.
use mathlib.Core.List.{Perm}
use mathlib.Core.List.Perm
use auto_mas_runtime.Base.{
  ◌≡◌, refl, ap, sym, subst, Bool, true, false, List, [], ◌∷◌, some, Bytes, arith, All, filter,
  bytes_eq_refl, Bool-cases, Option-cases, inl, inr, length, ◌==◌, ◌↔◌, ◌⊎◌, any,
}
use auto_mas_runtime.Mirror.Source.{Kind, kind_valid, UrlPackage, Source}
use auto_mas_runtime.Mirror.Catalog.{
  Catalog, Policy, Preferred, AttemptPlan, built, refused, policy_rejected, preferred_ok,
  preferred_key, ordered, valid_policy, validate_catalog, build_online, build_plan, new_plan,
  plan_seal, valid_plan,
}
use auto_mas_runtime.Mirror.Catalog.Distinct.{IsSound, Distinct}
use auto_mas_runtime.Mirror.Catalog.Order.{preferred_ok-Available, allowed}
use auto_mas_runtime.Mirror.Catalog.Attempts.{
  Ranked, ordered-Ranked, ordered_parts, ordered-Perm, catalog-IsSound,
}
use auto_mas_runtime.Mirror.Catalog.Refused.{bad_preference, preferred_ok-bad_preference}
use auto_mas_runtime.Mirror.Catalog.Build.{
  new_plan_valid, parts-Distinct, parts-IsSound, online_built,
}

module _ (net : UrlPackage) (sha256 : Bytes → Bytes) where
  plan_inputs :
      (catalog : Catalog) (policy : Policy) (kind : Kind) (plan : AttemptPlan)
      → build_plan net sha256 catalog policy kind ≡ built plan
      → (kind_valid kind ≡ true)
        × (valid_policy policy ≡ true)
        × (validate_catalog net catalog ≡ true)
  unfolding build_plan
  plan_inputs catalog policy kind plan h = (ground arith, ground arith, ground arith)

  plan_online :
      (catalog : Catalog) (policy : Policy) (kind : Kind) (plan : AttemptPlan)
      → build_plan net sha256 catalog policy kind ≡ built plan
      → policy.offline ≡ false
      → (preferred : Preferred) × (policy.preferred ≡ some preferred)
        × (build_online net sha256 catalog preferred policy.mirror_only kind ≡ built plan)
  unfolding build_plan
  plan_online catalog policy kind plan h o = elim (Option-cases policy.preferred) [
    | inl e ↦ absurd (ground arith)
    | inr (preferred, e) ↦ (preferred, e, ground arith)
  ]

  -- An online plan of `BuildPlan` holds the catalog's sources of the kind, each once, and with
  -- `mirror_only` those that are not official. The preferred source of the kind, if the policy names
  -- one, comes before the others, and every mirror before the official source.
  pub online_order :
      (catalog : Catalog) (policy : Policy) (kind : Kind) (plan : AttemptPlan)
      → build_plan net sha256 catalog policy kind ≡ built plan
      → policy.offline ≡ false
      → (preferred : Preferred) × (policy.preferred ≡ some preferred)
        × Ranked (preferred_key kind preferred) plan.sources
        × Perm plan.sources (filter (allowed policy.mirror_only) (catalog.sources kind))
  unfolding new_plan
  online_order catalog policy kind plan h o =
      let (v, p, c) = plan_inputs catalog policy kind plan h in
      let (preferred, e, k) = plan_online catalog policy kind plan h o in
      let (ok, some_source, same) =
        online_built net sha256 catalog preferred policy.mirror_only kind plan k in
      let d = (catalog-IsSound net catalog kind c v).1 in
      let a = preferred_ok-Available catalog policy.mirror_only kind preferred ok in
      let sources = sym (ap (λ q. q.sources) same) in
      (
        preferred,
        e,
        subst (Ranked (preferred_key kind preferred)) sources
            (ordered-Ranked catalog kind (preferred_key kind preferred) d policy.mirror_only a),
        subst (λ l. Perm l (filter (allowed policy.mirror_only) (catalog.sources kind))) sources
            (ordered-Perm catalog kind (preferred_key kind preferred) d policy.mirror_only a),
      )

  online_valid :
      (catalog : Catalog) (preferred : Preferred) (mirror_only : Bool) (kind : Kind)
      (plan : AttemptPlan)
      → kind_valid kind ≡ true
      → validate_catalog net catalog ≡ true
      → build_online net sha256 catalog preferred mirror_only kind ≡ built plan
      → valid_plan net sha256 plan ≡ true
  online_valid catalog preferred mirror_only kind plan v c h =
      let (ok, some_source, same) =
        online_built net sha256 catalog preferred mirror_only kind plan h in
      let (sound, d) = catalog-IsSound net catalog kind c v in
      let key = preferred_key kind preferred in
      let a = preferred_ok-Available catalog mirror_only kind preferred ok in
      let parts = sym (ordered_parts catalog kind key d mirror_only a) in
      rw same (
        new_plan_valid net sha256 kind (ordered catalog mirror_only kind key) v some_source
          (subst (All (IsSound net kind)) parts
            (parts-IsSound net kind key (catalog.sources kind) mirror_only sound))
          (subst Distinct parts (parts-Distinct key (catalog.sources kind) d mirror_only)))

  offline_valid :
      (catalog : Catalog) (policy : Policy) (kind : Kind) (plan : AttemptPlan)
      → kind_valid kind ≡ true
      → build_plan net sha256 catalog policy kind ≡ built plan
      → policy.offline ≡ true
      → valid_plan net sha256 plan ≡ true
  unfolding build_plan valid_plan new_plan
  offline_valid catalog policy kind plan v h e =
      let same : plan ≡ new_plan sha256 kind [] true = ground arith in
      rw same (ground (arith, bytes_eq_refl (plan_seal sha256 kind [] true)))

  -- Every plan that `BuildPlan` returns, online or offline, passes `validPlan`: its kind and its seal
  -- are right, it has no sources when it is offline, and else at least one, all of them valid and of
  -- that kind with distinct keys.
  pub build_plan-valid_plan :
      (catalog : Catalog) (policy : Policy) (kind : Kind) (plan : AttemptPlan)
      → build_plan net sha256 catalog policy kind ≡ built plan
      → valid_plan net sha256 plan ≡ true
  build_plan-valid_plan catalog policy kind plan h =
      let (v, p, c) = plan_inputs catalog policy kind plan h in
      elim (Bool-cases policy.offline) [
        | inl e ↦ offline_valid catalog policy kind plan v h e
        | inr e ↦
            let (preferred, f, k) = plan_online catalog policy kind plan h e in
            online_valid catalog preferred policy.mirror_only kind plan v c k
      ]

  empty_iff : (l m : List Source) → Perm l m → ((length l == 0) ≡ true) ↔ (m ≡ [])
  empty_iff [] m p = (λ h. Perm.eq-nil (Perm.symm p), λ h. refl)
  empty_iff (s ∷ l) m p =
      (λ h. absurd (ground arith), λ h. cc (Perm.eq-nil (subst (Perm (s ∷ l)) h p)))

  -- With a valid kind, catalog and policy that is not offline, `BuildPlan` reports a rejected policy
  -- exactly when, for a preference of any kind, no source of the catalog's list has the key, or
  -- `mirror_only` is set and an official source of the list has it, or when no source of the plan's
  -- kind is left, where `mirror_only` leaves out the official ones.
  pub policy_rejected_iff :
      (catalog : Catalog) (policy : Policy) (kind : Kind) (preferred : Preferred)
      → kind_valid kind ≡ true
      → valid_policy policy ≡ true
      → validate_catalog net catalog ≡ true
      → policy.offline ≡ false
      → policy.preferred ≡ some preferred
      → (build_plan net sha256 catalog policy kind ≡ refused policy_rejected) ↔ (
          (any (bad_preference catalog policy.mirror_only) preferred ≡ true)
          ⊎ (filter (allowed policy.mirror_only) (catalog.sources kind) ≡ []))
  unfolding build_plan build_online valid_policy
  policy_rejected_iff catalog policy kind preferred v p c o e =
      let told =
        preferred_ok-bad_preference net catalog c policy.mirror_only preferred (ground arith) in
      elim (Bool-cases (preferred_ok catalog policy.mirror_only preferred)) [
        | inr f ↦ (λ h. inl (ground (arith, told, f)), λ h. ground arith)
        | inl f ↦
            let a = preferred_ok-Available catalog policy.mirror_only kind preferred f in
            let d = (catalog-IsSound net catalog kind c v).1 in
            let empty =
              empty_iff (ordered catalog policy.mirror_only kind (preferred_key kind preferred))
                (filter (allowed policy.mirror_only) (catalog.sources kind))
                (ordered-Perm catalog kind (preferred_key kind preferred) d policy.mirror_only a) in
            (
              λ h. inr (empty.0 (ground arith)),
              λ h. elim h [
                | inl g ↦ absurd (ground (arith, told, f, g))
                | inr g ↦ let none_left = empty.1 g in ground arith
              ],
            )
      ]
