-- ===== src/Mirror/Rotation/OneAttempt.antt =====
-- One attempt of a rotation: its report, and what is known of the flow after it.
use auto_mas_runtime.Base.{
  ℕ, ◌+◌, ◌≡◌, refl, sym, ap, ◌∙◌, Bool, true, false, ◌&&◌, ◌||◌, [], ◌∷◌, ◌++◌, Option, none, some,
  Bytes, if◌then◌else◌, is_empty, arith, inl, inr, ◌⊎◌,
}
use auto_mas_runtime.Mirror.Source.{Kind, git, kind_eq, Source}
use auto_mas_runtime.Mirror.Target.{Target}
use auto_mas_runtime.Mirror.Report.{
  succeeded, integrity_failure, cancelled, outcome_is, AttemptReport, Err, Attempt, AttemptOutcome,
  RotationResult, validate_attempt_outcome, build_attempt_report, outcome_is_iff, valid_git_commit,
}
use auto_mas_runtime.Mirror.Rotation.{
  World, Settings, Progress, Flow, report_attempt, report_outcome, after_report,
}
use auto_mas_runtime.Mirror.Rotation.Run.{make_attempt}
use auto_mas_runtime.Mirror.Rotation.Step.{Result, Leaves, Accepted, Leaves-imp, after_report_lem}

-- The report is of this attempt.
abbrev pub Reported : Target → Source → ℕ → ℕ → AttemptReport → Type 0
Reported target source source_try global_try report =
    (report.global_try ≡ global_try)
    × (report.source_try ≡ source_try)
    × (report.source_key ≡ source.key)
    × (report.kind ≡ source.kind)
    × (report.target ≡ target)
    × (report.target_hash ≡ target.fingerprint)

-- What a successful rotation knows of its commit.
abbrev pub commit_ok : Kind → Bytes → Bool
commit_ok kind commit = if kind_eq kind git then valid_git_commit commit else is_empty commit

abbrev pub Success : Kind → Source → AttemptReport → RotationResult → Type 0
Success kind source report r =
    (r.source ≡ some source)
    × (report.outcome ≡ succeeded)
    × (report.actual_commit ≡ r.actual_commit)
    × (commit_ok kind r.actual_commit ≡ true)

-- No source, or a success.
abbrev pub Ended : Kind → Source → AttemptReport → RotationResult → Type 0
Ended kind source report r = (r.source ≡ none) ⊎ Success kind source report r

legal_commit :
    (kind : Kind) (outcome : AttemptOutcome)
    → (validate_attempt_outcome kind outcome && outcome_is outcome.kind succeeded) ≡ true
    → commit_ok kind outcome.actual_commit ≡ true
unfolding validate_attempt_outcome
legal_commit kind outcome h = ground arith

legal_outcome :
    (ok : Bool) (outcome : AttemptOutcome)
    → (ok && outcome_is outcome.kind succeeded) ≡ true
    → (ok ≡ true) × (outcome.kind ≡ succeeded)
legal_outcome ok outcome h =
    (ground arith, (outcome_is_iff outcome.kind succeeded).0 (ground arith))

-- The progress after an attempt that did not end the run.
abbrev pub Advanced : Progress → AttemptReport → Progress → Type 0
Advanced p report p' =
    (p'.reports ≡ p.reports ++ report ∷ [])
    × (p'.global_try ≡ p.global_try + 1)
    × ((p.had_integrity_failure || outcome_is report.outcome integrity_failure) ≡ true
        → p'.had_integrity_failure ≡ true)

-- The flow after one attempt: its report is the last one.
abbrev pub OneMore : Kind → Target → Source → ℕ → Progress → Flow → Type 0
OneMore kind target source source_try p flow =
    (report : AttemptReport) × Reported target source source_try (p.global_try + 1) report
    × Leaves (λ r. (r.reports ≡ p.reports ++ report ∷ []) × Ended kind source report r)
        (Advanced p report) flow

module _ {σ : Type 0} (world : World σ) where
  integrity_kept :
      (ctx_err : Option Err) (outcome : AttemptOutcome)
      → outcome_is (report_outcome world true ctx_err outcome).kind integrity_failure ≡ true
      → outcome_is outcome.kind integrity_failure ≡ true
  unfolding report_outcome
  integrity_kept none outcome h = h
  integrity_kept (some e) outcome h =
      absurd (ground (arith, (outcome_is_iff cancelled integrity_failure).0 h))

  legal_report :
      (ok : Bool) (outcome : AttemptOutcome) (c : Option Err × σ) (w : σ)
      → (ok && outcome_is outcome.kind succeeded) ≡ true
      → report_outcome world ok
          (if ok && outcome_is outcome.kind succeeded then (none, w) else c).0
          outcome
        ≡ outcome
  unfolding report_outcome
  legal_report ok outcome c w h = rw (h, (legal_outcome ok outcome h).0) refl

  -- A result of the flow after the report, told by the report.
  told-Ended :
      (kind : Kind) (source : Source) (outcome told : AttemptOutcome) (report : AttemptReport)
      (r : RotationResult)
      → ((validate_attempt_outcome kind outcome && outcome_is outcome.kind succeeded) ≡ true
          → told ≡ outcome)
      → (report.outcome ≡ told.kind)
      → (report.actual_commit ≡ told.actual_commit)
      → Result source outcome.actual_commit
          (validate_attempt_outcome kind outcome && outcome_is outcome.kind succeeded)
          r.reports
          r
      → Ended kind source report r
  told-Ended kind source outcome told report r honest o c (same, inl (none_left, no_commit)) =
      inl none_left
  told-Ended kind source outcome told report r honest o c (same, inr (legal, from, commit)) =
      let told_eq = honest legal in
      let ok = legal_outcome (validate_attempt_outcome kind outcome) outcome legal in
      inr (
        from,
        o ∙ ap (λ x. x.kind) told_eq ∙ ok.1,
        c ∙ ap (λ x. x.actual_commit) told_eq ∙ sym commit,
        rw commit (legal_commit kind outcome legal),
      )

  told-Advanced :
      (ok : Bool) (ctx_err : Option Err) (outcome : AttemptOutcome) (had had' : Bool)
      → (ok ≡ true)
      → (had || outcome_is outcome.kind integrity_failure) ≡ had'
      → (had || outcome_is (report_outcome world ok ctx_err outcome).kind integrity_failure) ≡ true
      → had' ≡ true
  told-Advanced false ctx_err outcome had had' k e h = cc
  told-Advanced true ctx_err outcome had had' k e h = ground (arith, integrity_kept ctx_err outcome)

  module _ (settings : Settings) (kind : Kind) (target : Target) (source : Source)
      (source_try : ℕ) where
    pub make_attempt_lem :
        (p : Progress) (w : σ)
        → OneMore kind target source source_try p
            (make_attempt world settings kind target source source_try p w).0
    unfolding make_attempt build_attempt_report
    make_attempt_lem p w =
        let current : Attempt = record {
          source = source;
          target = target;
          source_try = source_try;
          global_try = p.global_try + 1;
        } in
        let (started_at, w1) = world.clock w in
        let (outcome, w2) = world.attempt current w1 in
        let (finished_at, w3) = world.clock w2 in
        let ok = validate_attempt_outcome kind outcome in
        let success = ok && outcome_is outcome.kind succeeded in
        let (ctx_err, w4) = (if success then (none, w3) else world.ctx_err w3) in
        let told = report_outcome world ok ctx_err outcome in
        let report = build_attempt_report current started_at finished_at told in
        let (reporter_err, w5) = report_attempt world report w4 in
        let p1 : Progress = record p {
          reports = p.reports ++ report ∷ [];
          global_try = p.global_try + 1;
        } in
        (
          report,
          (refl, refl, refl, refl, refl, refl),
          Leaves-imp (Result source outcome.actual_commit success p1.reports)
              (λ r. (r.reports ≡ p.reports ++ report ∷ []) × Ended kind source report r)
              (Accepted world settings source source_try ok outcome.kind p1) (Advanced p report)
              (λ r h. (
                h.0,
                told-Ended kind source outcome told report r
                    (legal_report ok outcome (world.ctx_err w3) w3) refl refl (refl, h.1),
              ))
              (λ p' h. (
                h.1.0,
                h.1.1,
                told-Advanced ok ctx_err outcome p.had_integrity_failure p'.had_integrity_failure
                    h.0 h.1.2,
              ))
              (after_report world settings source source_try ok outcome reporter_err p1 w5).0
              (after_report_lem world settings source source_try ok outcome reporter_err p1 w5),
        )
