-- ===== src/Mirror/Rotation.antt =====
-- internal/mirror/rotation.go: `Rotator.Run`. What the run calls (the clock, the wait, the reporter,
-- the context, the attempt itself) is a `World`: functions that take a state and return the next
-- one, so that each call may answer differently. A caller that gives no nil function is assumed by
-- the types; a nil reporter is `none`.
pub mod Run
pub mod Step
pub mod OneAttempt
pub mod Reports
pub mod Loops
pub mod Outcome
pub mod Counted
pub mod Tests
use auto_mas_runtime.Base.{
  ℕ, zero, suc, ◌+◌, ◌≡◌, refl, Bool, true, false, not, ◌&&◌, ◌||◌, List, [], ◌∷◌, ◌++◌, Option,
  none, some, Bytes, leb, ltb, bytes_eq, ◌==◌, if◌then◌else◌, is_empty, is_none, any,
}
use auto_mas_runtime.Mirror.Source.{Kind, UrlPackage, Source, kind_eq}
use auto_mas_runtime.Mirror.Catalog.{AttemptPlan, valid_plan, mem_key}
use auto_mas_runtime.Mirror.Target.{Target, validate_target, validate_for_kind}
use auto_mas_runtime.Mirror.Report.{
  OutcomeKind, succeeded, retry_same_source, switch_source, integrity_failure, target_failure,
  cancelled, other_outcome, outcome_is, AttemptReport, Err, outside, invalid_request, join,
  new_safe_error, wrap_safe_error, SafeErrorKind, safe_cancellation, safe_attempt_contract,
  safe_reporter, safe_wait, safe_target, safe_attempt, new_rotation_error,
  new_integrity_exhausted_error, network_unavailable, mirror_exhausted, Attempt, AttemptOutcome,
  RotationResult, failed_rotation_result, validate_attempt_outcome, build_attempt_report, safe,
}

pub record World (σ : Type 0) : Type 0 where
  pub clock : σ → ℕ × σ
  pub wait : ℕ → σ → Option Err × σ
  pub report_context : σ → Bool × σ  -- whether the factory returned a context and a cancel function
  pub reporter : Option (AttemptReport → σ → Option Err × σ)
  pub ctx_err : σ → Option Err × σ
  pub attempt : Attempt → σ → AttemptOutcome × σ

pub record Settings : Type 0 where
  pub max_source_attempts : ℕ
  pub retry_delay : ℕ

-- The variables of `Run` that live across attempts.
pub record Progress : Type 0 where
  pub reports : List AttemptReport
  pub causes : List (Option Err)
  pub blacklisted : List Bytes
  pub had_integrity_failure : Bool
  pub global_try : ℕ

abbrev pub RunResult : Type 0
RunResult = RotationResult × Option Err

-- Where a part of the loop leaves the run.
pub data Flow : Type 0 where
  returned : RunResult → Flow
  next_try : Progress → Flow
  next_source : Progress → Flow

abbrev pub fail : List AttemptReport → SafeErrorKind → List (Option Err) → Flow
fail reports kind causes =
    returned (failed_rotation_result reports, some (new_safe_error kind causes))

module _ {σ : Type 0} (world : World σ) where
  -- `reportAttempt`.
  unfoldable pub report_attempt : AttemptReport → σ → Option Err × σ
  report_attempt report w = elim world.reporter [
    | none ↦ (none, w)
    | some send ↦
        let (given, w') = world.report_context w in
        if given
        then (let (err, w'') = send report w' in
            (
              elim err [ none ↦ none | some e ↦ some (new_safe_error safe_reporter (some e ∷ [])) ],
              w'',
            ))
        else (some (new_safe_error safe_attempt_contract (some invalid_request ∷ [])), w')
  ]

  -- The outcome that goes into the report.
  unfoldable pub report_outcome : Bool → Option Err → AttemptOutcome → AttemptOutcome
  report_outcome outcome_ok ctx_err outcome = elim ctx_err [
    | some e ↦ record { kind = cancelled; failure_kind = []; actual_commit = []; err = some e }
    | none ↦ if outcome_ok then outcome else record {
      kind = other_outcome [];
      failure_kind = [];
      actual_commit = [];
      err = outcome.err;
    }
  ]

  -- The wait before another try of the same source.
  unfoldable pub wait_for_retry : Settings → ℕ → Progress → σ → Flow × σ
  wait_for_retry settings source_try p w =
      if source_try == settings.max_source_attempts
      then (next_source p, w)
      else let (wait_err, w1) = world.wait settings.retry_delay w in
        let (ctx_err, w2) = world.ctx_err w1 in
        elim ctx_err [
          | some e ↦ (
            fail p.reports safe_cancellation
                (join (some e ∷ join p.causes ∷ wrap_safe_error safe_wait wait_err ∷ []) ∷ []),
            w2,
          )
          | none ↦ elim wait_err [
            | some e ↦ (
              fail p.reports safe_wait
                  (join (join p.causes ∷ wrap_safe_error safe_wait (some e) ∷ []) ∷ []),
              w2,
            )
            | none ↦ (next_try p, w2)
          ]
        ]

  -- The `switch` on the kind of an outcome that was accepted.
  unfoldable pub continue_with :
      Settings → Source → ℕ → OutcomeKind → Option Err → Progress → σ → Flow × σ
  unfolding wait_for_retry
  continue_with settings source source_try retry_same_source callback_err p w =
      wait_for_retry settings source_try p w
  continue_with settings source source_try switch_source callback_err p w = (next_source p, w)
  continue_with settings source source_try integrity_failure callback_err p w = (
    next_source
        (record p { had_integrity_failure = true; blacklisted = source.key ∷ p.blacklisted }),
    w,
  )
  continue_with settings source source_try target_failure callback_err p w =
      (fail p.reports safe_target (callback_err ∷ []), w)
  continue_with settings source source_try succeeded callback_err p w = (next_try p, w)
  continue_with settings source source_try cancelled callback_err p w = (next_try p, w)
  continue_with settings source source_try (other_outcome s) callback_err p w = (next_try p, w)

  -- From the report of an attempt to the end of the loop's body.
  unfoldable pub after_report :
      Settings → Source → ℕ → Bool → AttemptOutcome → Option Err → Progress → σ → Flow × σ
  unfolding continue_with
  after_report settings source source_try outcome_ok outcome reporter_err p w =
      let callback_err = wrap_safe_error safe_attempt outcome.err in
      let outcome_err = if outcome_ok then none else some invalid_request in
      let (ctx_err, w1) = world.ctx_err w in
      if outcome_ok && outcome_is outcome.kind succeeded
      then (
        returned (
          record {
            source = some source;
            actual_commit = outcome.actual_commit;
            reports = p.reports;
          },
          reporter_err,
        ),
        w,
      )
      else elim ctx_err [
        | some e ↦ (
          fail p.reports safe_cancellation
              (join (some e ∷ outcome_err ∷ callback_err ∷ reporter_err ∷ []) ∷ []),
          w1,
        )
        | none ↦
            if not outcome_ok
            then (
              fail p.reports safe_attempt_contract
                  (join (outcome_err ∷ callback_err ∷ reporter_err ∷ []) ∷ []),
              w1,
            )
            else elim reporter_err [
              | some e ↦ (
                fail p.reports safe_reporter
                    (join (join p.causes ∷ callback_err ∷ some e ∷ []) ∷ []),
                w1,
              )
              | none ↦
                  continue_with settings source source_try outcome.kind callback_err
                    (record p { causes = p.causes ++ callback_err ∷ [] }) w1
            ]
      ]
