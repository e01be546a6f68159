-- ===== src/Mirror/Rotation/Loops.antt =====
-- The loops of a rotation keep what is known of its reports.
use mathlib.Core.List.{Mem}
use auto_mas_runtime.Base.{
  All, length, length-append, subst, ◌*◌, ℕ, zero, suc, ◌+◌, ◌≤◌, ◌≡◌, refl, sym, ap, true, not,
  ◌||◌, List, [], ◌∷◌, ◌++◌, some, Bytes, is_empty, any, arith, Bool-cases, Option-cases, inl, inr,
}
use auto_mas_runtime.Mirror.Catalog.{mem_key}
use auto_mas_runtime.Mirror.Source.{Kind, Source}
use auto_mas_runtime.Mirror.Target.{Target, validate_target}
use auto_mas_runtime.Mirror.Report.{
  AttemptReport, invalid_request, safe_cancellation, safe_target, RotationResult,
  failed_rotation_result,
}
use auto_mas_runtime.Mirror.Rotation.{
  World, Settings, Progress, Flow, returned, next_try, next_source, fail,
}
use auto_mas_runtime.Mirror.Rotation.Run.{make_attempt, try_once, try_source, try_sources, proceed}
use auto_mas_runtime.Mirror.Rotation.Step.{Leaves, Leaves-imp}
use auto_mas_runtime.Mirror.Rotation.OneAttempt.{Ended, Advanced, OneMore, make_attempt_lem}
use auto_mas_runtime.Mirror.Rotation.Reports.{
  Fits, is_integrity, any-append_one, EndsWell, Sound, SoundResult, SoundProgress, Sound-append,
  Sound-more,
}

module _ (max_tries : ℕ) (kind : Kind) (sources : List Source) (target : Target) where
  abbrev pub Kept : ℕ → Flow → Type 0
  Kept n flow =
      Leaves (SoundResult max_tries kind sources target n)
        (SoundProgress max_tries kind sources target n) flow

  pub Kept-more : (n m : ℕ) (flow : Flow) → n ≤ m → Kept n flow → Kept m flow
  Kept-more n m flow h k =
      Leaves-imp (SoundResult max_tries kind sources target n)
        (SoundResult max_tries kind sources target m)
        (SoundProgress max_tries kind sources target n)
        (SoundProgress max_tries kind sources target m)
        (λ r s. (Sound-more max_tries kind sources target n m r.reports h s.0, s.1))
        (λ p s. (Sound-more max_tries kind sources target n m p.reports h s.0, s.1, s.2)) flow k

  attempt-Kept :
      (source : Source) (source_try : ℕ) (n : ℕ) (p : Progress) (flow : Flow)
      → Mem source sources
      → 1 ≤ source_try
      → source_try ≤ max_tries
      → SoundProgress max_tries kind sources target n p
      → OneMore kind target source source_try p flow
      → Kept (n + 1) flow
  attempt-Kept source source_try n p flow m lo hi s (report, about, leaves) =
      let (g, t, key, k, same, hash) = about in
      let fits : Fits max_tries sources target report =
        (omega (arith, t, lo), omega (arith, t, hi), same, hash, (source, m, key, k)) in
      let sound : Sound max_tries kind sources target (n + 1) (p.reports ++ report ∷ []) =
        Sound-append max_tries kind sources target n p.reports report s.0 (omega (arith, g, s.1))
          fits in
      Leaves-imp (λ r. (r.reports ≡ p.reports ++ report ∷ []) × Ended kind source report r)
        (SoundResult max_tries kind sources target (n + 1)) (Advanced p report)
        (SoundProgress max_tries kind sources target (n + 1))
        (λ r h. (
          subst (Sound max_tries kind sources target (n + 1)) (sym h.0) sound,
          ends source m p.reports report r h.0 h.1,
        ))
        (λ p' h. (
          subst (Sound max_tries kind sources target (n + 1)) (sym h.0) sound,
          count p report p' s.1 h.0 h.1,
          λ e. h.2 (
              any-append_one p.reports report p.had_integrity_failure s.2
                (subst (λ l. any is_integrity l ≡ true) h.0 e)),
        ))
        flow leaves
    where
      ends :
          (source : Source) (m : Mem source sources) (before : List AttemptReport)
          (report : AttemptReport) (r : RotationResult)
          → r.reports ≡ before ++ report ∷ []
          → Ended kind source report r
          → EndsWell kind sources r
      ends source m before report r e (inl h) = inl h
      ends source m before report r e (inr h) = inr (source, m, (before, report, e, h))

      count :
          (p : Progress) (report : AttemptReport) (p' : Progress)
          → p.global_try ≡ length p.reports
          → p'.reports ≡ p.reports ++ report ∷ []
          → p'.global_try ≡ p.global_try + 1
          → p'.global_try ≡ length p'.reports
      count p report p' a b c =
          omega (arith, a, ap (λ l. length l) b, c, length-append p.reports (report ∷ []))

fewer_rounds : (n k m : ℕ) → n + k * m ≤ n + suc k * m
fewer_rounds n k m = grind arith

first_round : (n k m : ℕ) → n + m ≤ n + suc k * m
first_round n k m = grind arith

same_rounds : (n k m : ℕ) → n + m + k * m ≤ n + suc k * m
same_rounds n k m = grind arith

module _ {σ : Type 0} (sha256_hex : Bytes → Bytes) (world : World σ) (settings : Settings)
    (kind : Kind) (sources : List Source) (target : Target) where
  abbrev Keeps : ℕ → Flow → Type 0
  Keeps n flow = Kept settings.max_source_attempts kind sources target n flow

  stopped_sound :
      (n : ℕ) (p : Progress)
      → SoundProgress settings.max_source_attempts kind sources target n p
      → SoundResult settings.max_source_attempts kind sources target n
          (failed_rotation_result p.reports)
  stopped_sound n p s = (s.0, inl refl)

  try_once-Kept :
      (source : Source) (source_try n : ℕ) (p : Progress) (w : σ)
      → Mem source sources
      → 1 ≤ source_try
      → source_try ≤ settings.max_source_attempts
      → SoundProgress settings.max_source_attempts kind sources target n p
      → Keeps (n + 1) (try_once sha256_hex world settings kind target source source_try p w).0
  unfolding try_once
  try_once-Kept source source_try n p w m lo hi s =
      let max_tries = settings.max_source_attempts in
      elim (Option-cases (world.ctx_err w).0) [
        | inr (e, f) ↦
            rw (try_once, f)
              (Kept-more max_tries kind sources target n (n + 1)
                (fail p.reports safe_cancellation (some e ∷ [])) (omega arith)
                (stopped_sound n p s))
        | inl f ↦
            rw (try_once, f)
              (elim (Bool-cases
                (not (validate_target sha256_hex target) || is_empty target.fingerprint)) [
                  | inl g ↦ rw g (
                      Kept-more max_tries kind sources target n (n + 1)
                        (fail p.reports safe_target (some invalid_request ∷ [])) (omega arith)
                        (stopped_sound n p s))
                  | inr g ↦ rw g (
                      attempt-Kept max_tries kind sources target source source_try n p
                        (make_attempt world settings kind target source source_try p
                          (world.ctx_err w).1).0
                        m lo hi s
                        (make_attempt_lem world settings kind target source source_try p
                          (world.ctx_err w).1))
                ])
      ]

  proceed-Kept :
      (n m : ℕ) (result : Flow × σ) (try source : Progress → σ → Flow × σ)
      → n ≤ m
      → ((p : Progress) (w : σ)
          → SoundProgress settings.max_source_attempts kind sources target n p
          → Keeps m (try p w).0)
      → ((p : Progress) (w : σ)
          → SoundProgress settings.max_source_attempts kind sources target n p
          → Keeps m (source p w).0)
      → Keeps n result.0
      → Keeps m (proceed result try source).0
  proceed-Kept n m (returned r, w) try source h a b k =
      Kept-more settings.max_source_attempts kind sources target n m (returned r) h k
  proceed-Kept n m (next_try p, w) try source h a b k = a p w k
  proceed-Kept n m (next_source p, w) try source h a b k = b p w k

  try_source-Kept :
      (left : ℕ) (source : Source) (source_try n : ℕ) (p : Progress) (w : σ)
      → Mem source sources
      → 1 ≤ source_try
      → source_try + left ≡ settings.max_source_attempts + 1
      → SoundProgress settings.max_source_attempts kind sources target n p
      → Keeps
          (n + left)
          (try_source sha256_hex world left settings kind target source source_try p w).0
  unfolding try_source
  try_source-Kept zero source source_try n p w m lo hi s =
      Kept-more settings.max_source_attempts kind sources target n (n + 0) (next_source p)
        (omega arith) s
  try_source-Kept (suc left) source source_try n p w m lo hi s =
      proceed-Kept (n + 1) (n + suc left)
        (try_once sha256_hex world settings kind target source source_try p w)
        (λ p' w1.
          try_source sha256_hex world left settings kind target source (source_try + 1) p' w1)
        (λ p' w1. (next_source p', w1)) (omega arith)
        (λ p' w1 s'.
          Kept-more settings.max_source_attempts kind sources target (n + 1 + left) (n + suc left)
            (try_source sha256_hex world left settings kind target source (source_try + 1) p' w1).0
            (omega arith)
            (try_source-Kept left source (source_try + 1) (n + 1) p' w1 m (omega arith)
              (omega (arith, hi)) s'))
        (λ p' w1 s'.
          Kept-more settings.max_source_attempts kind sources target (n + 1) (n + suc left)
            (next_source p') (omega arith) s')
        (try_once-Kept source source_try n p w m lo (omega (arith, hi)) s)

  rest-Kept :
      (rest : List Source) (n : ℕ) (p : Progress) (w : σ)
      → Keeps
          (n + settings.max_source_attempts + length rest * settings.max_source_attempts)
          (try_sources sha256_hex world settings kind target rest p w).0
      → Keeps
          (n + suc (length rest) * settings.max_source_attempts)
          (try_sources sha256_hex world settings kind target rest p w).0
  rest-Kept rest n p w =
      Kept-more settings.max_source_attempts kind sources target
        (n + settings.max_source_attempts + length rest * settings.max_source_attempts)
        (n + suc (length rest) * settings.max_source_attempts)
        (try_sources sha256_hex world settings kind target rest p w).0
        (same_rounds n (length rest) settings.max_source_attempts)

  pub try_sources-Kept :
      (l : List Source) (n : ℕ) (p : Progress) (w : σ)
      → All (λ s. Mem s sources) l
      → SoundProgress settings.max_source_attempts kind sources target n p
      → Keeps
          (n + length l * settings.max_source_attempts)
          (try_sources sha256_hex world settings kind target l p w).0
  unfolding try_sources
  try_sources-Kept [] n p w m s =
      Kept-more settings.max_source_attempts kind sources target n
        (n + 0 * settings.max_source_attempts) (next_source p) (omega arith) s
  try_sources-Kept (source ∷ rest) n p w m s =
      elim (Bool-cases (mem_key source.key p.blacklisted)) [
        | inl e ↦
            rw (try_sources, e)
              (Kept-more settings.max_source_attempts kind sources target
                (n + length rest * settings.max_source_attempts)
                (n + suc (length rest) * settings.max_source_attempts)
                (try_sources sha256_hex world settings kind target rest p w).0
                (fewer_rounds n (length rest) settings.max_source_attempts)
                (try_sources-Kept rest n p w m.1 s))
        | inr e ↦
            rw (try_sources, e)
              (proceed-Kept (n + settings.max_source_attempts)
                (n + suc (length rest) * settings.max_source_attempts)
                (try_source sha256_hex world settings.max_source_attempts settings kind target
                  source 1 p w)
                (λ p' w1. try_sources sha256_hex world settings kind target rest p' w1)
                (λ p' w1. try_sources sha256_hex world settings kind target rest p' w1)
                (first_round n (length rest) settings.max_source_attempts)
                (λ p1 w1 s1.
                  rest-Kept rest n p1 w1
                    (try_sources-Kept rest (n + settings.max_source_attempts) p1 w1 m.1 s1))
                (λ p1 w1 s1.
                  rest-Kept rest n p1 w1
                    (try_sources-Kept rest (n + settings.max_source_attempts) p1 w1 m.1 s1))
                (try_source-Kept settings.max_source_attempts source 1 n p w m.0 (omega arith)
                  (omega arith) s))
      ]
