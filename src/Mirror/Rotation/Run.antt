-- ===== src/Mirror/Rotation/Run.antt =====
-- internal/mirror/rotation.go: the two loops of `Rotator.Run`, the checks before them and the
-- error after them.
use auto_mas_runtime.Base.{
  ℕ, zero, suc, ◌+◌, Bool, false, not, ◌&&◌, ◌||◌, List, [], ◌∷◌, ◌++◌, none, some, Bytes, leb, ltb,
  if◌then◌else◌, is_empty,
}
use auto_mas_runtime.Mirror.Source.{Kind, UrlPackage, Source}
use auto_mas_runtime.Mirror.Catalog.{AttemptPlan, valid_plan, mem_key}
use auto_mas_runtime.Mirror.Target.{Target, validate_target, validate_for_kind}
use auto_mas_runtime.Mirror.Report.{
  succeeded, outcome_is, invalid_request, new_safe_error, safe_cancellation, safe_target,
  new_rotation_error, new_integrity_exhausted_error, network_unavailable, mirror_exhausted, Attempt,
  RotationResult, failed_rotation_result, validate_attempt_outcome, build_attempt_report,
}
use auto_mas_runtime.Mirror.Rotation.{
  World, Settings, Progress, RunResult, Flow, returned, next_try, next_source, fail, report_attempt,
  report_outcome, after_report,
}

-- A `return`, or the next round of one of the loops.
abbrev pub proceed :
    {σ : Type 0} → Flow × σ → (Progress → σ → Flow × σ) → (Progress → σ → Flow × σ) → Flow × σ
proceed (returned r, w) try source = (returned r, w)
proceed (next_try p, w) try source = try p w
proceed (next_source p, w) try source = source p w

module _ {σ : Type 0} (world : World σ) where
  -- One attempt and its report.
  unfoldable pub make_attempt : Settings → Kind → Target → Source → ℕ → Progress → σ → Flow × σ
  make_attempt settings kind target source source_try p w =
      let current : Attempt = record {
        source = source;
        target = target;
        source_try = source_try;
        global_try = p.global_try + 1;
      } in
      let (started_at, w1) = world.clock w in
      let (outcome, w2) = world.attempt current w1 in
      let (finished_at, w3) = world.clock w2 in
      let outcome_ok = validate_attempt_outcome kind outcome in
      let legal_success = outcome_ok && outcome_is outcome.kind succeeded in
      let (ctx_err, w4) = (if legal_success then (none, w3) else world.ctx_err w3) in
      let report =
        build_attempt_report current started_at finished_at
          (report_outcome world outcome_ok ctx_err outcome) in
      let (reporter_err, w5) = report_attempt world report w4 in
      after_report world settings source source_try outcome_ok outcome reporter_err
        (record p { reports = p.reports ++ report ∷ []; global_try = p.global_try + 1 }) w5

module _ {σ : Type 0} (sha256_hex : Bytes → Bytes) (world : World σ) where
  -- The body of the inner loop.
  unfoldable pub try_once : Settings → Kind → Target → Source → ℕ → Progress → σ → Flow × σ
  try_once settings kind target source source_try p w =
      let (ctx_err, w1) = world.ctx_err w in
      elim ctx_err [
        | some e ↦ (fail p.reports safe_cancellation (some e ∷ []), w1)
        | none ↦
            if not (validate_target sha256_hex target) || is_empty target.fingerprint
            then (fail p.reports safe_target (some invalid_request ∷ []), w1)
            else make_attempt world settings kind target source source_try p w1
      ]

  -- The inner loop, `left` tries before its condition fails.
  unfoldable pub try_source : ℕ → Settings → Kind → Target → Source → ℕ → Progress → σ → Flow × σ
  try_source zero settings kind target source source_try p w = (next_source p, w)
  try_source (suc left) settings kind target source source_try p w =
      proceed (try_once settings kind target source source_try p w)
        (λ p' w1. try_source left settings kind target source (source_try + 1) p' w1)
        (λ p' w1. (next_source p', w1))

  -- The outer loop.
  unfoldable pub try_sources : Settings → Kind → Target → List Source → Progress → σ → Flow × σ
  try_sources settings kind target [] p w = (next_source p, w)
  try_sources settings kind target (source ∷ rest) p w =
      let skipped = try_sources settings kind target rest p w in
      if mem_key source.key p.blacklisted
      then skipped
      else proceed (try_source settings.max_source_attempts settings kind target source 1 p w)
          (λ p' w1. try_sources settings kind target rest p' w1)
          (λ p' w1. try_sources settings kind target rest p' w1)

-- The result after the loops.
unfoldable pub exhausted : Progress → RunResult
exhausted p = (
  failed_rotation_result p.reports,
  some (
      if p.had_integrity_failure
      then new_integrity_exhausted_error p.reports p.causes
      else new_rotation_error mirror_exhausted p.reports p.causes),
)

abbrev pub start : Progress
start = record {
  reports = [];
  causes = [];
  blacklisted = [];
  had_integrity_failure = false;
  global_try = 0;
}

abbrev pub finish : Flow → RunResult
finish (returned r) = r
finish (next_try p) = exhausted p
finish (next_source p) = exhausted p

-- `validRotator`, of the fields that are no functions.
abbrev pub valid_settings : Settings → Bool
valid_settings s =
    leb 1 s.max_source_attempts && leb s.max_source_attempts 16 && ltb 0 s.retry_delay

abbrev pub no_result : RotationResult
no_result = failed_rotation_result []

module _ {σ : Type 0} (net : UrlPackage) (sha256 sha256_hex : Bytes → Bytes) (world : World σ) where
  -- `Rotator.Run`.
  unfoldable pub run : Settings → AttemptPlan → Target → σ → RunResult × σ
  run settings plan target w =
      if not (valid_settings settings)
        || not (valid_plan net sha256 plan)
        || not (validate_for_kind sha256_hex target plan.kind)
      then ((no_result, some invalid_request), w)
      else let (ctx_err, w1) = world.ctx_err w in
        elim ctx_err [
          | some e ↦ ((no_result, some (new_safe_error safe_cancellation (some e ∷ []))), w1)
          | none ↦
              if plan.offline
              then ((no_result, some (new_rotation_error network_unavailable [] [])), w1)
              else let (flow, w2) =
                  try_sources sha256_hex world settings plan.kind target plan.sources start w1 in
                (finish flow, w2)
        ]
