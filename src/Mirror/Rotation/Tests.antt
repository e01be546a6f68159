-- ===== src/Mirror/Rotation/Tests.antt =====
-- A run whose first source fails to be reached twice and whose second source answers.
use mathlib.Core.List.{Mem}
use mathlib.Core.Option.{some-injective}
use auto_mas_runtime.Base.{
  ap, sym, ◌≤◌, ◌+◌, ℕ, ◌*◌, ◌≡◌, refl, true, false, List, [], ◌∷◌, ◌++◌, none, some, Bytes, codes,
  bytes_eq, to_lower, if◌then◌else◌, length,
}
use auto_mas_runtime.Base.Strings.{after_prefix, has_suffix, cut}
use auto_mas_runtime.Mirror.Source.{
  uv, Source, kind_eq, kind_valid, valid_source_key, normalize_source_url, accept_url, new_source,
  rebuild_source, validate_source, source_eq,
}
use auto_mas_runtime.Mirror.Catalog.{AttemptPlan, valid_plan, plan_sources_ok, plan_seal}
use auto_mas_runtime.Mirror.Catalog.Tests.{plain_url, plain_source, seal_of}
use auto_mas_runtime.Mirror.Target.{
  Target, validate_target, validate_for_kind, normalize_target_spec, version_field_ok,
  valid_version_value, release_branch_ok, digest_ok, spec_eq, target_fingerprint,
}
use auto_mas_runtime.Mirror.Report.{
  succeeded, retry_same_source, outcome_is, outcome_valid, failure_valid, failure_loop,
  AttemptReport, outside, AttemptOutcome, validate_attempt_outcome, build_attempt_report,
  attempt_error_text,
}
use auto_mas_runtime.Mirror.Rotation.{
  World, Settings, report_attempt, report_outcome, wait_for_retry, continue_with, after_report,
}
use auto_mas_runtime.Mirror.Rotation.Run.{make_attempt, try_once, try_source, try_sources, run}
use auto_mas_runtime.Mirror.Rotation.OneAttempt.{Success}
use auto_mas_runtime.Mirror.Rotation.Reports.{Sound}
use auto_mas_runtime.Mirror.Rotation.Outcome.{run-Success}
use auto_mas_runtime.Mirror.Rotation.Counted.{Counts, run_attempts}

abbrev near : Source
near = plain_source uv (codes "near") false

abbrev far : Source
far = plain_source uv (codes "astral") true

abbrev uv_plan : AttemptPlan
uv_plan = record { kind = uv; sources = near ∷ far ∷ []; offline = false; seal = codes "sealed" }

abbrev uv_target : Target
uv_target = record {
  spec = record {
    product_version = [];
    release_branch = [];
    uv_version = codes "0.8";
    python_version = [];
    lock_digest = [];
  };
  fingerprint = codes "f";
}

abbrev answer : Bytes → AttemptOutcome
answer key =
    if bytes_eq key (codes "astral")
    then record { kind = succeeded; failure_kind = []; actual_commit = []; err = none }
    else record {
      kind = retry_same_source;
      failure_kind = codes "dial";
      actual_commit = [];
      err = some (outside (codes "refused"));
    }

-- A world whose state is the time.
abbrev clockwork : World ℕ
clockwork = record {
  clock = λ t. (t, t + 1);
  wait = λ delay t. (none, t + delay);
  report_context = λ t. (true, t);
  reporter = some (λ report t. (none, t));
  ctx_err = λ t. (none, t);
  attempt = λ a t. (answer a.source.key, t);
}

abbrev twice : Settings
twice = record { max_source_attempts = 2; retry_delay = 5 }

abbrev digest_of : Bytes → Bytes
digest_of text = codes "f"

three_attempts :
    (run plain_url seal_of digest_of clockwork twice uv_plan uv_target 0).0.0.source ≡ some far
unfolding run valid_plan plan_sources_ok kind_valid kind_eq bytes_eq to_lower validate_source
    rebuild_source new_source valid_source_key normalize_source_url accept_url source_eq plan_seal
    validate_for_kind validate_target normalize_target_spec version_field_ok valid_version_value
    after_prefix cut has_suffix release_branch_ok digest_ok spec_eq target_fingerprint try_sources
    try_source try_once make_attempt validate_attempt_outcome outcome_is outcome_valid failure_valid
    failure_loop report_outcome build_attempt_report attempt_error_text report_attempt after_report
    continue_with wait_for_retry
three_attempts = refl

-- The same world, which also counts the attempts.
abbrev tally : World (ℕ × ℕ)
tally = record {
  clock = λ s. (s.0, (s.0 + 1, s.1));
  wait = λ delay s. (none, (s.0 + delay, s.1));
  report_context = λ s. (true, s);
  reporter = some (λ report s. (none, s));
  ctx_err = λ s. (none, s);
  attempt = λ a s. (answer a.source.key, (s.0, s.1 + 1));
}

abbrev attempts : ℕ × ℕ → ℕ
attempts s = s.1

tally-Counts : Counts attempts tally
tally-Counts = record {
  one_attempt = λ a w. refl;
  clock_same = λ w. refl;
  wait_same = λ d w. refl;
  context_same = λ w. refl;
  ctx_err_same = λ w. refl;
  reporter_same = λ send r w h. ap (λ f. (f r w).1.1) (sym (some-injective _ _ h));
}

run_attempts_example :
    (attempts (run plain_url seal_of digest_of tally twice uv_plan uv_target (0, 0)).1
      ≡ attempts (0, 0)
        + length (run plain_url seal_of digest_of tally twice uv_plan uv_target (0, 0)).0.0.reports)
    × (attempts (run plain_url seal_of digest_of tally twice uv_plan uv_target (0, 0)).1
        ≤ attempts (0, 0) + length uv_plan.sources * 2)
    × Sound 2 uv uv_plan.sources uv_target
        (length uv_plan.sources * 2)
        (run plain_url seal_of digest_of tally twice uv_plan uv_target (0, 0)).0.0.reports
run_attempts_example =
    run_attempts plain_url seal_of digest_of tally attempts tally-Counts twice uv_plan uv_target
      (0, 0)

run-Success_example :
    Mem far uv_plan.sources
    × ((before : List AttemptReport) × (report : AttemptReport) × ((run plain_url seal_of digest_of
            clockwork twice uv_plan uv_target 0).0.0.reports
          ≡ before ++ report ∷ [])
        × Success uv far report
            (run plain_url seal_of digest_of clockwork twice uv_plan uv_target 0).0.0)
run-Success_example =
    run-Success plain_url seal_of digest_of clockwork twice uv_plan uv_target 0 far three_attempts
