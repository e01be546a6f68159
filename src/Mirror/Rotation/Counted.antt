-- ===== src/Mirror/Rotation/Counted.antt =====
-- internal/mirror/rotation.go: a run reports each of its attempts once.
use auto_mas_runtime.Base.{
  ℕ, zero, suc, ◌+◌, ◌*◌, ◌≤◌, ◌≡◌, refl, ap, Bool, true, false, not, ◌&&◌, ◌||◌, List, [], ◌∷◌,
  ◌++◌, Option, none, some, Bytes, ◌==◌, if◌then◌else◌, is_empty, length, length-append, arith,
  Bool-cases, Option-cases, inl, inr,
}
use auto_mas_runtime.Mirror.Source.{Kind, UrlPackage, Source}
use auto_mas_runtime.Mirror.Catalog.{AttemptPlan, valid_plan, mem_key}
use auto_mas_runtime.Mirror.Target.{Target, validate_target, validate_for_kind}
use auto_mas_runtime.Mirror.Report.{
  OutcomeKind, succeeded, retry_same_source, switch_source, integrity_failure, target_failure,
  cancelled, other_outcome, outcome_is, AttemptReport, Err, Attempt, AttemptOutcome,
  wrap_safe_error, safe_attempt, validate_attempt_outcome, build_attempt_report,
}
use auto_mas_runtime.Mirror.Rotation.{
  World, Settings, Progress, Flow, returned, next_try, next_source, report_attempt, report_outcome,
  wait_for_retry, continue_with, after_report,
}
use auto_mas_runtime.Mirror.Rotation.Run.{
  make_attempt, try_once, try_source, try_sources, proceed, exhausted, start, finish,
  valid_settings, run,
}
use auto_mas_runtime.Mirror.Rotation.Reports.{Sound}
use auto_mas_runtime.Mirror.Rotation.Outcome.{run_reports}

-- A view of the state that counts the attempts: an attempt adds one, and nothing else changes it.
pub record Counts {σ : Type 0} (count : σ → ℕ) (world : World σ) : Type 0 where
  pub one_attempt : (a : Attempt) (w : σ) → count (world.attempt a w).1 ≡ count w + 1
  pub clock_same : (w : σ) → count (world.clock w).1 ≡ count w
  pub wait_same : (d : ℕ) (w : σ) → count (world.wait d w).1 ≡ count w
  pub context_same : (w : σ) → count (world.report_context w).1 ≡ count w
  pub ctx_err_same : (w : σ) → count (world.ctx_err w).1 ≡ count w
  pub reporter_same :
      (send : AttemptReport → σ → Option Err × σ) (r : AttemptReport) (w : σ)
      → world.reporter ≡ some send
      → count (send r w).1 ≡ count w

abbrev reports_of : Flow → List AttemptReport
reports_of (returned r) = r.0.reports
reports_of (next_try p) = p.reports
reports_of (next_source p) = p.reports

module _ {σ : Type 0} {count : σ → ℕ} {world : World σ} (counts : Counts count world) where
  report_attempt-count : (r : AttemptReport) (w : σ) → count (report_attempt world r w).1 ≡ count w
  unfolding report_attempt
  report_attempt-count r w = elim (Option-cases world.reporter) [
    | inl e ↦ rw (report_attempt, e) refl
    | inr (send, e) ↦
        rw (report_attempt, e)
          (elim (Bool-cases (world.report_context w).0) [
            | inl g ↦ rw g (
                omega (
                  arith,
                  counts.context_same w,
                  counts.reporter_same send r (world.report_context w).1 e,
                ))
            | inr g ↦ rw g (counts.context_same w)
          ])
  ]

  -- No attempt was made, and no report added.
  abbrev Idle : Progress → σ → Flow × σ → Type 0
  Idle p w x = (count x.1 ≡ count w) × (reports_of x.0 ≡ p.reports)

  wait_for_retry-Idle :
      (settings : Settings) (source_try : ℕ) (p : Progress) (w : σ)
      → Idle p w (wait_for_retry world settings source_try p w)
  unfolding wait_for_retry
  wait_for_retry-Idle settings source_try p w =
      let w1 = (world.wait settings.retry_delay w).1 in
      let same : count (world.ctx_err w1).1 ≡ count w =
        omega (arith, counts.wait_same settings.retry_delay w, counts.ctx_err_same w1) in
      elim (Bool-cases (source_try == settings.max_source_attempts)) [
        | inl e ↦ rw (wait_for_retry, e) (refl, refl)
        | inr e ↦
            rw (wait_for_retry, e)
              (elim (Option-cases (world.ctx_err w1).0) [
                | inr (c, f) ↦ rw f (same, refl)
                | inl f ↦ rw f (elim (Option-cases (world.wait settings.retry_delay w).0) [
                  | inr (c, g) ↦ rw g (same, refl)
                  | inl g ↦ rw g (same, refl)
                ])
              ])
      ]

  continue_with-Idle :
      (settings : Settings) (source : Source) (source_try : ℕ) (kind : OutcomeKind)
      (err : Option Err) (p : Progress) (w : σ)
      → Idle p w (continue_with world settings source source_try kind err p w)
  unfolding continue_with
  continue_with-Idle settings source source_try retry_same_source err p w =
      wait_for_retry-Idle settings source_try p w
  continue_with-Idle settings source source_try switch_source err p w = (refl, refl)
  continue_with-Idle settings source source_try integrity_failure err p w = (refl, refl)
  continue_with-Idle settings source source_try target_failure err p w = (refl, refl)
  continue_with-Idle settings source source_try succeeded err p w = (refl, refl)
  continue_with-Idle settings source source_try cancelled err p w = (refl, refl)
  continue_with-Idle settings source source_try (other_outcome s) err p w = (refl, refl)

  after_report-Idle :
      (settings : Settings) (source : Source) (source_try : ℕ) (ok : Bool)
      (outcome : AttemptOutcome) (reporter_err : Option Err) (p : Progress) (w : σ)
      → Idle p w (after_report world settings source source_try ok outcome reporter_err p w)
  unfolding after_report
  after_report-Idle settings source source_try ok outcome reporter_err p w =
      let same = counts.ctx_err_same w in
      elim (Bool-cases (ok && outcome_is outcome.kind succeeded)) [
        | inl e ↦ rw (after_report, e) (refl, refl)
        | inr e ↦
            rw (after_report, e)
              (elim (Option-cases (world.ctx_err w).0) [
                | inr (c, f) ↦ rw f (same, refl)
                | inl f ↦ rw f (elim (Bool-cases (not ok)) [
                  | inl g ↦ rw g (same, refl)
                  | inr g ↦ rw g (elim (Option-cases reporter_err) [
                    | inr (c, h) ↦ rw h (same, refl)
                    | inl h ↦ rw h (
                        let callback_err = wrap_safe_error safe_attempt outcome.err in
                        let later =
                          continue_with-Idle settings source source_try outcome.kind callback_err
                            (record p { causes = p.causes ++ callback_err ∷ [] })
                            (world.ctx_err w).1 in
                        (omega (arith, same, later.0), later.1))
                  ])
                ])
              ])
      ]

  -- As many attempts were made as reports were added.
  abbrev Counted : Progress → σ → Flow × σ → Type 0
  Counted p w x = count x.1 + length p.reports ≡ count w + length (reports_of x.0)

  context_after :
      (legal : Bool) (w : σ) → count (if legal then (none, w) else world.ctx_err w).1 ≡ count w
  context_after true w = refl
  context_after false w = counts.ctx_err_same w

  make_attempt-Counted :
      (settings : Settings) (kind : Kind) (target : Target) (source : Source) (source_try : ℕ)
      (p : Progress) (w : σ)
      → Counted p w (make_attempt world settings kind target source source_try p w)
  unfolding make_attempt
  make_attempt-Counted settings kind target source source_try p w =
      let current : Attempt = record {
        source = source;
        target = target;
        source_try = source_try;
        global_try = p.global_try + 1;
      } in
      let w1 = (world.clock w).1 in
      let outcome = (world.attempt current w1).0 in
      let w2 = (world.attempt current w1).1 in
      let w3 = (world.clock w2).1 in
      let ok = validate_attempt_outcome kind outcome in
      let legal = ok && outcome_is outcome.kind succeeded in
      let checked = (if legal then (none, w3) else world.ctx_err w3) in
      let report =
        build_attempt_report current (world.clock w).0 (world.clock w2).0
          (report_outcome world ok checked.0 outcome) in
      let reported = report_attempt world report checked.1 in
      let after =
        after_report-Idle settings source source_try ok outcome reported.0
          (record p { reports = p.reports ++ report ∷ []; global_try = p.global_try + 1 })
          reported.1 in
      omega (
        arith,
        counts.clock_same w,
        counts.one_attempt current w1,
        counts.clock_same w2,
        context_after legal w3,
        report_attempt-count report checked.1,
        after.0,
        ap (λ l. length l) after.1,
        length-append p.reports (report ∷ []),
      )

module _ {σ : Type 0} {count : σ → ℕ} {world : World σ} (counts : Counts count world)
    (sha256_hex : Bytes → Bytes) where
  try_once-Counted :
      (settings : Settings) (kind : Kind) (target : Target) (source : Source) (source_try : ℕ)
      (p : Progress) (w : σ)
      → Counted counts p w (try_once sha256_hex world settings kind target source source_try p w)
  unfolding try_once
  try_once-Counted settings kind target source source_try p w =
      let w1 = (world.ctx_err w).1 in
      let same : count w1 ≡ count w = counts.ctx_err_same w in
      elim (Option-cases (world.ctx_err w).0) [
        | inr (e, f) ↦ rw (try_once, f) (omega (arith, same))
        | inl f ↦
            rw (try_once, f)
              (elim (Bool-cases
                (not (validate_target sha256_hex target) || is_empty target.fingerprint)) [
                  | inl g ↦ rw g (omega (arith, same))
                  | inr g ↦ rw g (
                      omega (
                        arith,
                        same,
                        make_attempt-Counted counts settings kind target source source_try p w1,
                      ))
                ])
      ]

  proceed-Counted :
      (p : Progress) (w : σ) (x : Flow × σ) (try source : Progress → σ → Flow × σ)
      → Counted counts p w x
      → ((p' : Progress) (v : σ) → Counted counts p' v (try p' v))
      → ((p' : Progress) (v : σ) → Counted counts p' v (source p' v))
      → Counted counts p w (proceed x try source)
  proceed-Counted p w (returned r, v) try source h k l = h
  proceed-Counted p w (next_try p', v) try source h k l = omega (arith, h, k p' v)
  proceed-Counted p w (next_source p', v) try source h k l = omega (arith, h, l p' v)

  try_source-Counted :
      (left : ℕ) (settings : Settings) (kind : Kind) (target : Target) (source : Source)
      (source_try : ℕ) (p : Progress) (w : σ)
      → Counted counts p w
          (try_source sha256_hex world left settings kind target source source_try p w)
  unfolding try_source
  try_source-Counted zero settings kind target source source_try p w = refl
  try_source-Counted (suc left) settings kind target source source_try p w =
      proceed-Counted p w (try_once sha256_hex world settings kind target source source_try p w)
        (λ p' v. try_source sha256_hex world left settings kind target source (source_try + 1) p' v)
        (λ p' v. (next_source p', v)) (try_once-Counted settings kind target source source_try p w)
        (try_source-Counted left settings kind target source (source_try + 1)) (λ p' v. refl)

  try_sources-Counted :
      (settings : Settings) (kind : Kind) (target : Target) (sources : List Source) (p : Progress)
      (w : σ)
      → Counted counts p w (try_sources sha256_hex world settings kind target sources p w)
  unfolding try_sources
  try_sources-Counted settings kind target [] p w = refl
  try_sources-Counted settings kind target (source ∷ rest) p w =
      elim (Bool-cases (mem_key source.key p.blacklisted)) [
        | inl e ↦ rw e (try_sources-Counted settings kind target rest p w)
        | inr e ↦ rw e (
            proceed-Counted p w
              (try_source sha256_hex world settings.max_source_attempts settings kind target source
                1 p w)
              (λ p' v. try_sources sha256_hex world settings kind target rest p' v)
              (λ p' v. try_sources sha256_hex world settings kind target rest p' v)
              (try_source-Counted settings.max_source_attempts settings kind target source 1 p w)
              (try_sources-Counted settings kind target rest)
              (try_sources-Counted settings kind target rest))
      ]

  finish-reports : (flow : Flow) → (finish flow).0.reports ≡ reports_of flow
  unfolding exhausted
  finish-reports (returned r) = refl
  finish-reports (next_try p) = refl
  finish-reports (next_source p) = refl

  run-count :
      (net : UrlPackage) (sha256 : Bytes → Bytes) (settings : Settings) (plan : AttemptPlan)
      (target : Target) (w : σ)
      → count (run net sha256 sha256_hex world settings plan target w).1
        ≡ count w + length (run net sha256 sha256_hex world settings plan target w).0.0.reports
  unfolding run
  run-count net sha256 settings plan target w =
      let w1 = (world.ctx_err w).1 in
      let same : count w1 ≡ count w = counts.ctx_err_same w in
      elim (Bool-cases (
        not (valid_settings settings)
        || not (valid_plan net sha256 plan)
        || not (validate_for_kind sha256_hex target plan.kind))) [
          | inl e ↦ rw (run, e) (omega arith)
          | inr e ↦
              rw (run, e)
                (elim (Option-cases (world.ctx_err w).0) [
                  | inr (c, f) ↦ rw f (omega (arith, same))
                  | inl f ↦ rw f (elim (Bool-cases plan.offline) [
                    | inl g ↦ rw g (omega (arith, same))
                    | inr g ↦ rw g (
                        let flow =
                          (try_sources sha256_hex world settings plan.kind target plan.sources start
                            w1).0 in
                        omega (
                          arith,
                          same,
                          ap (λ l. length l) (finish-reports flow),
                          try_sources-Counted settings plan.kind target plan.sources start w1,
                        ))
                  ])
                ])
        ]

-- Every run, whatever the attempts, the clock, the reporter and the context answer, makes exactly as many
-- attempts as it has reports, in any view of the state that counts them, and at most as many as the
-- plan has sources times the tries of a source. Its reports are numbered from 1 upwards in their
-- order, and each names a source of the plan, a try of that source within the bound, and the target
-- that the run was given, with its fingerprint.
pub run_attempts :
    {σ : Type 0} (net : UrlPackage) (sha256 sha256_hex : Bytes → Bytes) (world : World σ)
    (count : σ → ℕ) (counts : Counts count world) (settings : Settings) (plan : AttemptPlan)
    (target : Target) (w : σ)
    → (count (run net sha256 sha256_hex world settings plan target w).1
        ≡ count w + length (run net sha256 sha256_hex world settings plan target w).0.0.reports)
      × (count (run net sha256 sha256_hex world settings plan target w).1
          ≤ count w + length plan.sources * settings.max_source_attempts)
      × Sound settings.max_source_attempts plan.kind plan.sources target
          (length plan.sources * settings.max_source_attempts)
          (run net sha256 sha256_hex world settings plan target w).0.0.reports
run_attempts net sha256 sha256_hex world count counts settings plan target w =
    let exact = run-count counts sha256_hex net sha256 settings plan target w in
    let sound = run_reports net sha256 sha256_hex world settings plan target w in
    (exact, omega (arith, exact, sound.2), sound)
