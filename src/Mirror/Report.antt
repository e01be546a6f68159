-- ===== src/Mirror/Report.antt =====
-- internal/mirror/report.go: outcomes of attempts, their reports, and the errors of a rotation.
use mathlib.Core.Bool.{decide, decide_iff}
use auto_mas_runtime.Base.{
  ℕ, ◌+◌, ◌-◌, ◌^◌, ◌≡◌, ◌↔◌, Bool, true, false, not, ◌&&◌, ◌||◌, List, [], ◌∷◌, ◌++◌, Option, none,
  some, Bytes, codes, all, leb, ltb, ◌==◌, if◌then◌else◌, is_empty, is_none, length, ℕ_discrete,
}
use auto_mas_runtime.Mirror.Source.{Kind, git, Source, kind_eq}
use auto_mas_runtime.Mirror.Target.{Target}

-- The constants, or any other text.
pub data OutcomeKind : Type 0 where
  succeeded retry_same_source switch_source integrity_failure target_failure cancelled : OutcomeKind
  other_outcome : Bytes → OutcomeKind

unfoldable pub outcome_valid : OutcomeKind → Bool
outcome_valid (other_outcome s) = false
outcome_valid succeeded = true
outcome_valid retry_same_source = true
outcome_valid switch_source = true
outcome_valid integrity_failure = true
outcome_valid target_failure = true
outcome_valid cancelled = true

-- The loop of `FailureKind.Valid`.
unfoldable pub failure_loop : Bool → Bool → Bytes → Bool
failure_loop first previous_underscore [] = true
failure_loop first previous_underscore (c ∷ rest) =
    let after_letter = failure_loop false false rest in
    let after_underscore = failure_loop false true rest in
    if leb b'a' c && leb c b'z'
    then after_letter
    else if leb b'0' c && leb c b'9'
    then (if first then false else after_letter)
    else if c == b'_'
    then (if first || is_empty rest || previous_underscore then false else after_underscore)
    else false

-- `FailureKind.Valid`.
unfoldable pub failure_valid : Bytes → Bool
failure_valid k = if is_empty k || ltb 64 (length k) then false else failure_loop true false k

pub data SafeErrorKind : Type 0 where
  safe_cancellation safe_attempt_contract safe_reporter safe_wait safe_target safe_attempt
        safe_option :
      SafeErrorKind

pub record AttemptReport : Type 0 where
  pub kind : Kind
  pub source_key : Bytes
  pub source_try : ℕ
  pub global_try : ℕ
  pub target : Target
  pub target_hash : Bytes
  pub started_at : ℕ
  pub duration : ℕ
  pub outcome : OutcomeKind
  pub failure_kind : Bytes
  pub error : Bytes
  pub actual_commit : Bytes

pub data Code : Type 0 where
  network_unavailable mirror_exhausted : Code

-- Go errors: those of the callers, by a text, and those of this package.
mutual
  pub data Err : Type 0 where
    outside : Bytes → Err
    invalid_request : Err
    safe : SafeErrorKind → Errs → Err
    joined : Errs → Err
    rotation_error : Code → List AttemptReport → Errs → Err
    integrity_exhausted : List AttemptReport → Errs → Err

  pub data Errs : Type 0 where
    no_errs : Errs
    err_cons : Err → Errs → Errs

-- `compactCauses`, and the nil errors that `errors.Join` drops.
unfoldable pub compact_causes : List (Option Err) → Errs
compact_causes [] = no_errs
compact_causes (none ∷ causes) = compact_causes causes
compact_causes (some e ∷ causes) = err_cons e (compact_causes causes)

-- `errors.Join`: nil when all are.
abbrev pub join : List (Option Err) → Option Err
join causes = elim (compact_causes causes) [
  | no_errs ↦ none
  | err_cons e es ↦ some (joined (err_cons e es))
]

abbrev pub new_safe_error : SafeErrorKind → List (Option Err) → Err
new_safe_error kind causes = safe kind (compact_causes causes)

abbrev pub wrap_safe_error : SafeErrorKind → Option Err → Option Err
wrap_safe_error kind none = none
wrap_safe_error kind (some cause) = some (new_safe_error kind (some cause ∷ []))

unfoldable pub wrap_safe_causes : SafeErrorKind → List (Option Err) → Errs
wrap_safe_causes kind [] = no_errs
wrap_safe_causes kind (none ∷ causes) = wrap_safe_causes kind causes
wrap_safe_causes kind (some e ∷ causes) =
    err_cons (new_safe_error kind (some e ∷ [])) (wrap_safe_causes kind causes)

abbrev pub new_rotation_error : Code → List AttemptReport → List (Option Err) → Err
new_rotation_error code reports causes =
    rotation_error code reports (wrap_safe_causes safe_attempt causes)

abbrev pub new_integrity_exhausted_error : List AttemptReport → List (Option Err) → Err
new_integrity_exhausted_error reports causes =
    integrity_exhausted reports (wrap_safe_causes safe_attempt causes)

pub record Attempt : Type 0 where
  pub source : Source
  pub target : Target
  pub source_try : ℕ
  pub global_try : ℕ

pub record AttemptOutcome : Type 0 where
  pub kind : OutcomeKind
  pub failure_kind : Bytes
  pub actual_commit : Bytes
  pub err : Option Err

pub record RotationResult : Type 0 where
  pub source : Option Source  -- `none` is the zero source
  pub actual_commit : Bytes
  pub reports : List AttemptReport

abbrev pub failed_rotation_result : List AttemptReport → RotationResult
failed_rotation_result reports = record { source = none; actual_commit = []; reports = reports }

unfoldable pub attempt_error_text : AttemptOutcome → Bytes
attempt_error_text outcome =
    if is_none outcome.err
    then []
    else if failure_valid outcome.failure_kind
    then codes "attempt failed: " ++ outcome.failure_kind
    else codes "attempt failed"

unfoldable pub valid_git_commit : Bytes → Bool
valid_git_commit commit =
    if not (length commit == 40)
    then false
    else all (λ c. leb b'0' c && leb c b'9' || leb b'a' c && leb c b'f') commit

outcome-discrete : Discrete OutcomeKind
outcome-discrete = hlevel ℕ_discrete

unfoldable pub outcome_is : OutcomeKind → OutcomeKind → Bool
unfolding outcome-discrete ℕ_discrete decide
outcome_is a b = decide (outcome-discrete a b)

-- `validateAttemptOutcome(kind, outcome) == nil`; every refusal wraps the same error.
unfoldable pub validate_attempt_outcome : Kind → AttemptOutcome → Bool
validate_attempt_outcome kind outcome =
    if not (outcome_valid outcome.kind) || outcome_is outcome.kind cancelled
    then false
    else if outcome_is outcome.kind succeeded
    then (if not (is_none outcome.err)
          || not (is_empty outcome.failure_kind)
          || kind_eq kind git && not (valid_git_commit outcome.actual_commit)
          || not (kind_eq kind git) && not (is_empty outcome.actual_commit)
        then false
        else true)
    else if is_none outcome.err || not (is_empty outcome.actual_commit)
    then false
    else failure_valid outcome.failure_kind

-- `finishedAt.Sub(startedAt)` in nanoseconds, below 0 raised to 0, and saturated.
abbrev duration_between : ℕ → ℕ → ℕ
duration_between started_at finished_at =
    if ltb (2 ^ 63) (finished_at - started_at + 1) then 2 ^ 63 - 1 else finished_at - started_at

unfoldable pub build_attempt_report : Attempt → ℕ → ℕ → AttemptOutcome → AttemptReport
build_attempt_report attempt started_at finished_at outcome = record {
  kind = attempt.source.kind;
  source_key = attempt.source.key;
  source_try = attempt.source_try;
  global_try = attempt.global_try;
  target = attempt.target;
  target_hash = attempt.target.fingerprint;
  started_at = started_at;
  duration = duration_between started_at finished_at;
  outcome = outcome.kind;
  failure_kind = outcome.failure_kind;
  error = attempt_error_text outcome;
  actual_commit = outcome.actual_commit;
}

pub outcome_is_iff : (a b : OutcomeKind) → (outcome_is a b ≡ true) ↔ (a ≡ b)
unfolding outcome_is
outcome_is_iff a b = decide_iff (outcome-discrete a b)
