-- ===== src/Mirror/Rotation/Reports.antt =====
-- The reports of a whole rotation: how many, of which sources, numbered how, and ending how.
use mathlib.Core.List.{Mem}
use auto_mas_runtime.Base.{
  All, All-append, length, length-append, ℕ, ◌+◌, ◌≤◌, ◌≡◌, Bool, true, ◌||◌, List, [], ◌∷◌, ◌++◌,
  none, any, arith, Bool-cases, inl, inr, ◌⊎◌,
}
use auto_mas_runtime.Mirror.Source.{Kind, Source}
use auto_mas_runtime.Mirror.Target.{Target}
use auto_mas_runtime.Mirror.Report.{integrity_failure, outcome_is, AttemptReport, RotationResult}
use auto_mas_runtime.Mirror.Rotation.{Progress}
use auto_mas_runtime.Mirror.Rotation.OneAttempt.{Success}

-- The reports are numbered upwards from `n`.
abbrev pub Numbered : ℕ → List AttemptReport → Type 0
Numbered n [] = Unit
Numbered n (r ∷ l) = (r.global_try ≡ n) × Numbered (n + 1) l

Numbered-append :
    (n : ℕ) (l : List AttemptReport) (r : AttemptReport)
    → Numbered n l
    → r.global_try ≡ n + length l
    → Numbered n (l ++ r ∷ [])
Numbered-append n [] r h e = (omega (arith, e), tt)
Numbered-append n (x ∷ l) r h e = (h.0, Numbered-append (n + 1) l r h.1 (omega (arith, e)))

-- A report of a try of one of the sources, with the target that the run was given.
abbrev pub Fits : ℕ → List Source → Target → AttemptReport → Type 0
Fits max_tries sources target report =
    (1 ≤ report.source_try)
    × (report.source_try ≤ max_tries)
    × (report.target ≡ target)
    × (report.target_hash ≡ target.fingerprint)
    × ((s : Source) × Mem s sources × (report.source_key ≡ s.key) × (report.kind ≡ s.kind))

abbrev pub is_integrity : AttemptReport → Bool
is_integrity report = outcome_is report.outcome integrity_failure

pub any-append_one :
    (l : List AttemptReport) (r : AttemptReport) (b : Bool)
    → (any is_integrity l ≡ true → b ≡ true)
    → any is_integrity (l ++ r ∷ []) ≡ true
    → (b || is_integrity r) ≡ true
any-append_one [] r b h k = ground (arith, k)
any-append_one (x ∷ l) r b h k = elim (Bool-cases (is_integrity x)) [
  | inl e ↦ ground (arith, h (ground arith))
  | inr e ↦ any-append_one l r b (λ g. h (ground (arith, g))) (ground (arith, k))
]

-- How the run ended: without a source, or with the one of the last report, which succeeded.
abbrev pub EndsWell : Kind → List Source → RotationResult → Type 0
EndsWell kind sources r =
    (r.source ≡ none)
    ⊎ ((s : Source) × Mem s sources
        × ((before : List AttemptReport) × (report : AttemptReport) × (r.reports
              ≡ before ++ report ∷ [])
            × Success kind s report r))

module _ (max_tries : ℕ) (kind : Kind) (sources : List Source) (target : Target) where
  -- At most `n` reports, all of them numbered and of this run.
  abbrev pub Sound : ℕ → List AttemptReport → Type 0
  Sound n reports =
      Numbered 1 reports × All (Fits max_tries sources target) reports × (length reports ≤ n)

  abbrev pub SoundResult : ℕ → RotationResult → Type 0
  SoundResult n r = Sound n r.reports × EndsWell kind sources r

  abbrev pub SoundProgress : ℕ → Progress → Type 0
  SoundProgress n p =
      Sound n p.reports
      × (p.global_try ≡ length p.reports)
      × (any is_integrity p.reports ≡ true → p.had_integrity_failure ≡ true)

  pub Sound-append :
      (n : ℕ) (reports : List AttemptReport) (report : AttemptReport)
      → Sound n reports
      → report.global_try ≡ length reports + 1
      → Fits max_tries sources target report
      → Sound (n + 1) (reports ++ report ∷ [])
  Sound-append n reports report s g f = (
    Numbered-append 1 reports report s.0 (omega (arith, g)),
    All-append (Fits max_tries sources target) reports (report ∷ []) s.1 (f, tt),
    omega (arith, s.2, length-append reports (report ∷ [])),
  )

  pub Sound-more :
      (n m : ℕ) (reports : List AttemptReport) → n ≤ m → Sound n reports → Sound m reports
  Sound-more n m reports h s = (s.0, s.1, omega (arith, h, s.2))
