-- ===== src/Mirror/Rotation/Step.antt =====
-- What one attempt of a rotation leaves: one report more, and a flow that carries the reports on.
use auto_mas_runtime.Base.{
  ℕ, ◌≡◌, refl, ap, Bool, true, false, ◌&&◌, ◌||◌, List, [], ◌∷◌, ◌++◌, Option, none, some, Bytes,
  ◌==◌, arith, Bool-cases, Option-cases, inl, inr, ◌⊎◌,
}
use auto_mas_runtime.Mirror.Source.{Source}
use auto_mas_runtime.Mirror.Report.{
  OutcomeKind, succeeded, retry_same_source, switch_source, integrity_failure, target_failure,
  cancelled, other_outcome, outcome_is, AttemptReport, Err, safe_attempt, wrap_safe_error,
  AttemptOutcome, RotationResult, failed_rotation_result,
}
use auto_mas_runtime.Mirror.Rotation.{
  World, Settings, Progress, Flow, returned, next_try, next_source, wait_for_retry, continue_with,
  after_report,
}

-- A result is a failure with these reports, or success from this source and commit.
abbrev pub Result : Source → Bytes → Bool → List AttemptReport → RotationResult → Type 0
Result source commit success reports r =
    (r.reports ≡ reports)
    × (((r.source ≡ none) × (r.actual_commit ≡ []))
        ⊎ ((success ≡ true) × (r.source ≡ some source) × (r.actual_commit ≡ commit)))

-- What the loop's body leaves: a result with these reports, or a progress with `Q`.
abbrev pub Leaves : (RotationResult → Type 0) → (Progress → Type 0) → Flow → Type 0
Leaves R Q (returned r) = R r.0
Leaves R Q (next_try p) = Q p
Leaves R Q (next_source p) = Q p

-- The progress after an outcome that was accepted.
abbrev pub After : Progress → OutcomeKind → Progress → Type 0
After p kind p' =
    (p'.reports ≡ p.reports)
    × (p'.global_try ≡ p.global_try)
    × ((p.had_integrity_failure || outcome_is kind integrity_failure) ≡ p'.had_integrity_failure)

pub Leaves-imp :
    (R R' : RotationResult → Type 0) (Q Q' : Progress → Type 0)
    → ((r : RotationResult) → R r → R' r)
    → ((p : Progress) → Q p → Q' p)
    → (flow : Flow) → Leaves R Q flow
    → Leaves R' Q' flow
Leaves-imp R R' Q Q' f g (returned r) h = f r.0 h
Leaves-imp R R' Q Q' f g (next_try p) h = g p h
Leaves-imp R R' Q Q' f g (next_source p) h = g p h

failed-Result :
    (source : Source) (commit : Bytes) (success : Bool) (reports : List AttemptReport)
    → Result source commit success reports (failed_rotation_result reports)
failed-Result source commit success reports = (refl, inl (refl, refl))

module _ {σ : Type 0} (world : World σ) (settings : Settings) (source : Source)
    (source_try : ℕ) where
  wait_for_retry_lem :
      (p : Progress) (w : σ)
      → Leaves
          (λ r. r ≡ failed_rotation_result p.reports)
          (λ p'. p' ≡ p)
          (wait_for_retry world settings source_try p w).0
  unfolding wait_for_retry
  wait_for_retry_lem p w = elim (Bool-cases (source_try == settings.max_source_attempts)) [
    | inl e ↦ rw e refl
    | inr e ↦ rw e (elim (Option-cases (world.ctx_err (world.wait settings.retry_delay w).1).0) [
      | inr (err, f) ↦ rw f refl
      | inl f ↦ rw f (elim (Option-cases (world.wait settings.retry_delay w).0) [
        | inr (err, g) ↦ rw g refl
        | inl g ↦ rw g refl
      ])
    ])
  ]

  continue_with_lem :
      (kind : OutcomeKind) (callback_err : Option Err) (p : Progress) (w : σ)
      → Leaves
          (λ r. r ≡ failed_rotation_result p.reports)
          (After p kind)
          (continue_with world settings source source_try kind callback_err p w).0
  unfolding continue_with outcome_is
  continue_with_lem retry_same_source callback_err p w =
      Leaves-imp (λ r. r ≡ failed_rotation_result p.reports)
        (λ r. r ≡ failed_rotation_result p.reports) (λ p'. p' ≡ p) (After p retry_same_source)
        (λ r e. e)
        (λ p' e. (
          ap (λ q. q.reports) e,
          ap (λ q. q.global_try) e,
          ground (arith, ap (λ q. q.had_integrity_failure) e),
        ))
        (wait_for_retry world settings source_try p w).0 (wait_for_retry_lem p w)
  continue_with_lem switch_source callback_err p w = (refl, refl, ground arith)
  continue_with_lem integrity_failure callback_err p w = (refl, refl, ground arith)
  continue_with_lem target_failure callback_err p w = refl
  continue_with_lem succeeded callback_err p w = (refl, refl, ground arith)
  continue_with_lem cancelled callback_err p w = (refl, refl, ground arith)
  continue_with_lem (other_outcome s) callback_err p w = (refl, refl, ground arith)

  -- An outcome that goes on was accepted, and is not a success.
  abbrev pub Accepted : Bool → OutcomeKind → Progress → Progress → Type 0
  Accepted outcome_ok kind p p' = (outcome_ok ≡ true) × After p kind p'

  pub after_report_lem :
      (outcome_ok : Bool) (outcome : AttemptOutcome) (reporter_err : Option Err) (p : Progress)
      (w : σ)
      → Leaves
          (Result source outcome.actual_commit
            (outcome_ok && outcome_is outcome.kind succeeded)
            p.reports)
          (Accepted outcome_ok outcome.kind p)
          (after_report world settings source source_try outcome_ok outcome reporter_err p w).0
  unfolding after_report
  after_report_lem outcome_ok outcome reporter_err p w =
      let success = outcome_ok && outcome_is outcome.kind succeeded in
      let R = Result source outcome.actual_commit success p.reports in
      elim (Bool-cases (outcome_ok && outcome_is outcome.kind succeeded)) [
        | inl e ↦ rw e (refl, inr (refl, refl, refl))
        | inr e ↦ rw e (elim (Option-cases (world.ctx_err w).0) [
          | inr (err, f) ↦ rw f (failed-Result source outcome.actual_commit false p.reports)
          | inl f ↦ rw f (elim (Bool-cases outcome_ok) [
            | inr g ↦ rw g (failed-Result source outcome.actual_commit false p.reports)
            | inl g ↦ rw g (elim (Option-cases reporter_err) [
              | inr (err, h) ↦ rw h (failed-Result source outcome.actual_commit false p.reports)
              | inl h ↦ rw h (
                  Leaves-imp (λ r. r ≡ failed_rotation_result p.reports)
                    (Result source outcome.actual_commit false p.reports) (After p outcome.kind)
                    (Accepted true outcome.kind p)
                    (λ r k. (
                      ap (λ x. x.reports) k,
                      inl (ap (λ x. x.source) k, ap (λ x. x.actual_commit) k),
                    ))
                    (λ p' k. (refl, k))
                    (continue_with world settings source source_try outcome.kind
                      (wrap_safe_error safe_attempt outcome.err)
                      (record p {
                        causes = p.causes ++ wrap_safe_error safe_attempt outcome.err ∷ [];
                      })
                      (world.ctx_err w).1).0
                    (continue_with_lem outcome.kind (wrap_safe_error safe_attempt outcome.err)
                      (record p {
                        causes = p.causes ++ wrap_safe_error safe_attempt outcome.err ∷ [];
                      })
                      (world.ctx_err w).1))
            ])
          ])
        ])
      ]
