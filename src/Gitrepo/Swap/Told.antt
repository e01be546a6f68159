-- ===== src/Gitrepo/Swap/Told.antt =====
-- internal/gitrepo/swap.go: where the two repositories are, before, during and after a swap.
use auto_mas_runtime.Base.{
  ℕ, ◌≡◌, refl, sym, ap, ◌∙◌, ◌⊎◌, inl, inr, Bool, true, false, not, Option, none, some,
  if◌then◌else◌, is_none, arith,
}
use auto_mas_runtime.State.Stage.{workspace_swap}
use auto_mas_runtime.Gitrepo.Failure.{
  Cause, RepoError, swap_failure_error, committed_environment_failure, committed_cleanup_failure,
}
use auto_mas_runtime.Gitrepo.Disk.{
  Directory, Dirs, repository_slot, update_slot, previous_slot, Shrunk,
}
use auto_mas_runtime.Gitrepo.World.{
  rename_repository_to_retired, rename_update_to_repository, DeleteResult, clean,
}
use auto_mas_runtime.Gitrepo.World.Rules.{RenameLaw}
use auto_mas_runtime.Gitrepo.Swap.{SwapResult, SwapOutcome, no_swap, after_rename}

-- Before the swap: the new repository waits in the update directory.
abbrev pub Ready : Option Directory → Directory → Dirs → Type 0
Ready old new d = (d.repository ≡ old) × (d.previous ≡ none) × (d.update ≡ some new)

-- The old repository is retired, and nothing has taken its place yet.
abbrev pub Retired : Option Directory → Directory → Dirs → Type 0
Retired old new d =
    (o : Directory) × (old ≡ some o)
    × (d.repository ≡ none)
    × (d.previous ≡ old)
    × (d.update ≡ some new)

abbrev pub Active : Directory → Dirs → Type 0
Active new d = (d.repository ≡ some new) × (d.update ≡ none)

-- The error of an outcome says whether the new repository has been activated.
abbrev ErrorTells : Option RepoError → Bool → Bool → Type 0
ErrorTells none activated completed = (activated ≡ true) × (completed ≡ true)
ErrorTells (some e) activated completed = (e.committed ≡ activated) × (completed ≡ false)

-- What an outcome of a swap tells of the disk.
abbrev pub SwapTells : Option Directory → Directory → SwapOutcome → Dirs → Type 0
SwapTells old new r d =
    ErrorTells r.1 r.0.repository_activated r.0.cleanup_completed
    × ((r.0.repository_activated ≡ true)
          × Active new d
          × (r.0.cleanup_completed ≡ true → d.previous ≡ none)
        ⊎ (r.0.repository_activated ≡ false) × (Ready old new d ⊎ Retired old new d))

refused :
    {old : Option Directory} {new : Directory} (r : SwapResult) (e : RepoError) (d : Dirs)
    → r.repository_activated ≡ false
    → r.cleanup_completed ≡ false
    → e.committed ≡ false
    → Ready old new d ⊎ Retired old new d
    → SwapTells old new (r, some e) d
refused r e d h1 h2 h3 k = ground (arith, h1, h2, h3, k)

module _ (old : Option Directory) (new : Directory) where
  -- What is known once the new repository is active: nothing is retired when nothing stood before.
  abbrev pub Activated : Option ℕ → Dirs → Type 0
  Activated retired d = (Active new d) × (is_none retired ≡ true → d.previous ≡ none)

  pub removed :
      (r : SwapResult) (x : DeleteResult × Option Cause) (a d : Dirs)
      → r.repository_activated ≡ true
      → r.cleanup_completed ≡ false
      → Active new a
      → Shrunk previous_slot a d
      → (clean x ≡ true → d.previous ≡ none)
      → SwapTells old new
          (if clean x
            then (record r { cleanup_completed = true }, none)
            else (r, some committed_cleanup_failure))
          d
  removed r x a d h1 h2 p s c = elim s [
    | inl e ↦ ground (arith, h1, h2, p, e, c)
    | inr (inl e) ↦ ground (arith, h1, h2, p, e, c)
    | inr (inr (o, g, e)) ↦ ground (arith, h1, h2, p, e, c)
  ]

  pub environment_failed :
      (r : SwapResult) (e : Cause) (d : Dirs)
      → r.repository_activated ≡ true
      → r.cleanup_completed ≡ false
      → Active new d
      → SwapTells old new (r, some (committed_environment_failure e)) d
  environment_failed r e d h1 h2 p = ground (arith, h1, h2, p)

  -- After the second rename: the new repository is active when it was applied.
  abbrev pub Renamed : Bool → Option ℕ → Dirs → Type 0
  Renamed applied retired d =
      (applied ≡ true) × Activated retired d
      ⊎ (applied ≡ false) × (Ready old new d ⊎ Retired old new d)

  abbrev pub Before : Option ℕ → Dirs → Type 0
  Before retired a =
      (is_none retired ≡ true → a.previous ≡ none) × (Ready old new a ⊎ Retired old new a)

  pub renamed :
      (x : Bool × Option Cause) (retired : Option ℕ) {id : ℕ} (a d : Dirs)
      → Before retired a
      → RenameLaw a
          (record {
            kind = rename_update_to_repository;
            source = update_slot;
            destination = repository_slot;
            expected = id;
          })
          x
          d
      → Renamed x.0 retired d
  renamed x retired a d p l = elim l [
    | inl (h, e) ↦ inr (h, rw e p.1)
    | inr (h, (o, g, k, i, e)) ↦ ground (arith, h, g, k, e, p)
  ]

  pub rename_failed :
      (before : SwapResult) (b : Bool) (e : RepoError) (retired : Option ℕ) (d : Dirs)
      → Renamed b retired d
      → e.committed ≡ b
      → SwapTells old new (after_rename before b, some e) d
  rename_failed before b e retired d p h = ground (arith, p, h)

  pub not_renamed :
      (before : SwapResult) (b : Bool) (retired : Option ℕ) (d : Dirs)
      → not b ≡ true
      → Renamed b retired d
      → SwapTells old new (after_rename before b, some (swap_failure_error workspace_swap)) d
  not_renamed before b retired d h p = ground (arith, p, h)

  pub now_active :
      (b : Bool) (retired : Option ℕ) (d : Dirs)
      → not b ≡ false
      → Renamed b retired d
      → Activated retired d
  now_active b retired d h p = elim p [
    | inl (e, q) ↦ q
    | inr (e, q) ↦ absurd (ground (arith, e, h))
  ]

  -- After the first rename.
  abbrev pub Moving : Bool → Dirs → Type 0
  Moving applied d = (applied ≡ true) × Retired old new d ⊎ (applied ≡ false) × Ready old new d

  pub retired_or_Ready :
      (x : Bool × Option Cause) {id : ℕ} (a d : Dirs)
      → Ready old new a
      → RenameLaw a
          (record {
            kind = rename_repository_to_retired;
            source = repository_slot;
            destination = previous_slot;
            expected = id;
          })
          x
          d
      → Moving x.0 d
  retired_or_Ready x a d p l = elim l [
    | inl (h, e) ↦ inr (h, rw e p)
    | inr (h, (o, g, k, i, e)) ↦ inl (
      h,
      (
        o,
        sym p.0 ∙ g,
        ap (λ d. d.repository) e,
        ap (λ d. d.previous) e ∙ (sym g ∙ p.0),
        ap (λ d. d.update) e ∙ p.2,
      ),
    )
  ]

  pub stopped_moving :
      (b : Bool) (e : RepoError) (d : Dirs)
      → Moving b d
      → e.committed ≡ false
      → SwapTells old new (record no_swap { mutation_applied = b }, some e) d
  stopped_moving b e d p h = elim p [
    | inl (k, q) ↦ ((h, refl), inr (refl, inr q))
    | inr (k, q) ↦ ((h, refl), inr (refl, inl q))
  ]

  pub refused_ready :
      (e : RepoError) (d : Dirs)
      → e.committed ≡ false
      → Ready old new d
      → SwapTells old new (no_swap, some e) d
  refused_ready e d h p = ((h, refl), inr (refl, inl p))

  pub now_retired : (b : Bool) (id : ℕ) (d : Dirs) → not b ≡ false → Moving b d → Before (some id) d
  now_retired b id d h p = elim p [
    | inl (e, q) ↦ (λ h. absurd (ground (arith, h)), inr q)
    | inr (e, q) ↦ absurd (ground (arith, e, h))
  ]
