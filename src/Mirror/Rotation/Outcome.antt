-- ===== src/Mirror/Rotation/Outcome.antt =====
-- What a caller of `Rotator.Run` may rely on.
use mathlib.Core.List.{Mem, mem-cons_self, mem-cons_of_mem}
use auto_mas_runtime.Base.{
  ℕ, ◌+◌, ◌*◌, ◌≡◌, refl, subst, not, ◌||◌, List, [], ◌∷◌, ◌++◌, some, Bytes, arith, Bool-cases,
  Option-cases, inl, inr, All, All-imp, length,
}
use auto_mas_runtime.Mirror.Source.{Kind, UrlPackage, Source}
use auto_mas_runtime.Mirror.Catalog.{AttemptPlan, valid_plan}
use auto_mas_runtime.Mirror.Target.{Target, validate_for_kind}
use auto_mas_runtime.Mirror.Report.{AttemptReport, RotationResult}
use auto_mas_runtime.Mirror.Rotation.{World, Settings, Flow, returned, next_try, next_source}
use auto_mas_runtime.Mirror.Rotation.Run.{
  try_sources, exhausted, start, finish, valid_settings, no_result, run,
}
use auto_mas_runtime.Mirror.Rotation.OneAttempt.{Success}
use auto_mas_runtime.Mirror.Rotation.Reports.{EndsWell, Sound, SoundResult}
use auto_mas_runtime.Mirror.Rotation.Loops.{Kept, Kept-more, try_sources-Kept}

members : (l : List Source) → All (λ s. Mem s l) l
members [] = tt
members (s ∷ l) = (
  mem-cons_self,
  All-imp (λ x. Mem x l) (λ x. Mem x (s ∷ l)) l (λ x h. mem-cons_of_mem s h) (members l),
)

module _ (max_tries : ℕ) (kind : Kind) (sources : List Source) (target : Target) where
  finish_sound :
      (n : ℕ) (flow : Flow)
      → Kept max_tries kind sources target n flow
      → SoundResult max_tries kind sources target n (finish flow).0
  unfolding exhausted
  finish_sound n (returned r) k = k
  finish_sound n (next_try p) k = (k.0, inl refl)
  finish_sound n (next_source p) k = (k.0, inl refl)

  nothing_sound : (n : ℕ) → SoundResult max_tries kind sources target n no_result
  nothing_sound n = ((tt, tt, omega arith), inl refl)

module _ {σ : Type 0} (net : UrlPackage) (sha256 sha256_hex : Bytes → Bytes) (world : World σ) where
  -- What is known of the result of every run.
  run_sound :
      (settings : Settings) (plan : AttemptPlan) (target : Target) (w : σ)
      → SoundResult settings.max_source_attempts plan.kind plan.sources target
          (length plan.sources * settings.max_source_attempts)
          (run net sha256 sha256_hex world settings plan target w).0.0
  unfolding run
  run_sound settings plan target w =
      let max_tries = settings.max_source_attempts in
      let bound = length plan.sources * max_tries in
      let nothing = nothing_sound max_tries plan.kind plan.sources target bound in
      elim (Bool-cases (
        not (valid_settings settings)
        || not (valid_plan net sha256 plan)
        || not (validate_for_kind sha256_hex target plan.kind))) [
          | inl e ↦ rw (run, e) nothing
          | inr e ↦
              rw (run, e)
                (elim (Option-cases (world.ctx_err w).0) [
                  | inr (err, f) ↦ rw f nothing
                  | inl f ↦ rw f (elim (Bool-cases plan.offline) [
                    | inl g ↦ rw g nothing
                    | inr g ↦ rw g (
                        finish_sound max_tries plan.kind plan.sources target bound
                          (try_sources sha256_hex world settings plan.kind target plan.sources start
                            (world.ctx_err w).1).0
                          (Kept-more max_tries plan.kind plan.sources target (0 + bound) bound
                            (try_sources sha256_hex world settings plan.kind target plan.sources
                              start (world.ctx_err w).1).0
                            (omega arith)
                            (try_sources-Kept sha256_hex world settings plan.kind plan.sources
                              target plan.sources 0 start (world.ctx_err w).1 (members plan.sources)
                              ((tt, tt, omega arith), refl, λ h. cc))))
                  ])
                ])
        ]

  -- Every run has at most as many reports as the plan has sources times the tries of a source. They
  -- are numbered from 1 upwards in their order, and each names a source of the plan, a try of that
  -- source within the bound, and the target that the run was given, with its fingerprint.
  pub run_reports :
      (settings : Settings) (plan : AttemptPlan) (target : Target) (w : σ)
      → Sound settings.max_source_attempts plan.kind plan.sources target
          (length plan.sources * settings.max_source_attempts)
          (run net sha256 sha256_hex world settings plan target w).0.0.reports
  run_reports settings plan target w = (run_sound settings plan target w).0

  -- A run that returns a source returns one of the plan, and its last report is a success with the
  -- same commit: one of 40 lower-case hexadecimal digits for git, none for other kinds.
  pub run-Success :
      (settings : Settings) (plan : AttemptPlan) (target : Target) (w : σ) (source : Source)
      → (run net sha256 sha256_hex world settings plan target w).0.0.source ≡ some source
      → Mem source plan.sources
        × ((before : List AttemptReport) × (report : AttemptReport) × ((run net sha256 sha256_hex
                world settings plan target w).0.0.reports
              ≡ before ++ report ∷ [])
            × Success plan.kind source report
                (run net sha256 sha256_hex world settings plan target w).0.0)
  run-Success settings plan target w source h =
      told plan.kind plan.sources (run net sha256 sha256_hex world settings plan target w).0.0
        source h (run_sound settings plan target w).1
    where
      told :
          (kind : Kind) (sources : List Source) (r : RotationResult) (source : Source)
          → r.source ≡ some source
          → EndsWell kind sources r
          → Mem source sources
            × ((before : List AttemptReport) × (report : AttemptReport) × (r.reports
                  ≡ before ++ report ∷ [])
                × Success kind source report r)
      told kind sources r source h (inl e) = absurd (ground arith)
      told kind sources r source h (inr (s, m, (before, report, e, ok))) =
          let same : s ≡ source = ground (arith, ok.0) in
          (
            subst (λ x. Mem x sources) same m,
            (before, report, e, subst (λ x. Success kind x report r) same ok),
          )
