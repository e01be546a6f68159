-- ===== src/Gitrepo/Recovery/Stepwise.antt =====
-- internal/gitrepo/recovery.go: what one step of a recovery leaves on the disk, with an error and
-- without.
use auto_mas_runtime.Base.{
  ◌≡◌, refl, ◌⊎◌, inl, inr, Bool, true, false, not, ◌&&◌, [], Option, none, some, Bytes, codes,
  is_none, is_empty, if◌then◌else◌, arith,
}
use auto_mas_runtime.State.Stage.{Stage, workspace_swap, workspace_cleanup}
use auto_mas_runtime.Gitrepo.Revision.{Revision}
use auto_mas_runtime.Gitrepo.Failure.{
  Cause, RepoError, ambiguous_error, new_error, git_repo_cleanup_failed, is_ambiguous,
  swap_failure_error, committed_cleanup_failure,
}
use auto_mas_runtime.Gitrepo.Disk.{Dirs, Disk, get, Moved, Shrunk}
use auto_mas_runtime.Gitrepo.World.{
  Context, caller_context, RenameRequest, DeleteRequest, clean, EnvironmentState, World, ret, ◌>>=◌,
}
use auto_mas_runtime.Gitrepo.World.Rules.{
  Triple, Reads, IsLawful, RenameLaw, ret-Triple, >>=-Triple, >>=-read, >>-read, if-Triple,
  option-Triple, sum-Triple,
}
use auto_mas_runtime.Gitrepo.World.Calls.{
  rename-Triple, remove-Triple, is_cancellation-Reads, map_rename_failure-Reads,
  map_write_failure-Reads,
}
use auto_mas_runtime.Gitrepo.Recovery.{RecoveryResult}
use auto_mas_runtime.Gitrepo.Recovery.Step.{
  classification_error, rename_recovery, removal_failure, remove_recovery,
}
use auto_mas_runtime.Gitrepo.Recovery.Environment.{
  RecoveryRequest, already_broken, environment_failure, broken_environment, prepare_environment,
  apply_environment,
}

-- A rename moved the directory, or failed and left everything.
abbrev pub RenameEnd : RenameRequest → (Dirs → Type 0) → Option RepoError → Dirs → Type 0
RenameEnd r P e d =
    (a : Dirs) × P a × ((d ≡ a) × (is_none e ≡ false) ⊎ Moved r.source r.destination r.expected a d)

-- A removal without an error left nothing.
abbrev pub RemoveEnd : DeleteRequest → (Dirs → Type 0) → Option RepoError → Dirs → Type 0
RemoveEnd r P e d = (a : Dirs) × P a × Shrunk r.target a d × (e ≡ none → get r.target d ≡ none)

abbrev moved_away : RepoError
moved_away = ambiguous_error workspace_swap (codes "directory_identity_changed")

abbrev incomplete : RepoError
incomplete = new_error git_repo_cleanup_failed workspace_cleanup none

rename_end :
    {P : Dirs → Type 0} (r : RenameRequest) (x : Bool × Option Cause) (e : Option RepoError)
    (a d : Dirs)
    → (x.0 ≡ false → is_none e ≡ false)
    → P a
    → RenameLaw a r x d
    → RenameEnd r P e d
rename_end r x e a d h p l = elim l [
  | inl (k, q) ↦ (a, p, inl (q, h k))
  | inr (k, m) ↦ (a, p, inr m)
]

module _ {σ : Type 0} {disk : σ → Disk} {world : World σ} (lawful : IsLawful disk world) where
  pub classification_error-Reads :
      (stage : Stage) (reason : Bytes) (e : Cause)
      → Reads disk (classification_error world stage reason e)
  unfolding classification_error ◌>>=◌ ret
  classification_error-Reads stage reason e = record {
    same = λ w. (is_cancellation-Reads lawful caller_context e).same w;
  }

  removal_failure-Reads :
      (c : Context) (b : Bool) (e : Cause) → Reads disk (removal_failure world c b e)
  unfolding removal_failure ◌>>=◌ ret
  removal_failure-Reads c true e = record { same = λ w. refl }
  removal_failure-Reads c false e = record {
    same = λ w. ground ((is_cancellation-Reads lawful c e).same w, arith);
  }

  pub rename_recovery_lem :
      (P : Dirs → Type 0) (r : RenameRequest) (result : RecoveryResult)
      → result.recovered ≡ false
      → Triple disk
          (λ d. P d.dirs)
          (rename_recovery world r result)
          (λ x d. (x.0.recovered ≡ false) × RenameEnd r P x.1 d.dirs)
  unfolding rename_recovery
  rename_recovery_lem P r result hr = >>-read (lawful.report_reads _) (
      >>=-Triple (rename-Triple lawful P caller_context r) (λ x.
        option-Triple x.1
          (λ e h.
            if-Triple (is_ambiguous e && not x.0)
              (λ hb.
                ret-Triple _
                  (λ d p. (hr, rename_end r x (some moved_away) p.0 d.dirs (λ k. refl) p.1 p.2)))
              (λ hb. >>=-read (map_rename_failure-Reads lawful _ e _ _) (λ f.
                ret-Triple _
                  (λ d p. (hr, rename_end r x (some f) p.0 d.dirs (λ k. refl) p.1 p.2)))))
          (λ h. ret-Triple _ (λ d p. (
            hr,
            rename_end r x (if x.0 then none else some (swap_failure_error workspace_swap)) p.0
                d.dirs (λ k. not_applied x.0 k) p.1 p.2,
          )))))
    where
      not_applied :
          (b : Bool)
          → b ≡ false
          → is_none (if b then none else some (swap_failure_error workspace_swap)) ≡ false
      not_applied b h = ground (arith, h)

  pub remove_recovery_lem :
      (P : Dirs → Type 0) (c : Context) (b : Bool) (r : DeleteRequest) (result : RecoveryResult)
      → result.recovered ≡ false
      → Triple disk
          (λ d. P d.dirs)
          (remove_recovery world c b r result)
          (λ x d. (x.0.recovered ≡ false) × RemoveEnd r P x.1 d.dirs)
  unfolding remove_recovery
  remove_recovery_lem P c b r result hr = >>-read (lawful.report_reads _) (
      >>=-Triple (remove-Triple lawful P c r) (λ x.
        option-Triple x.1
          (λ e h.
            >>=-read (removal_failure-Reads c b e)
              (λ f. ret-Triple _ (λ d p. (hr, (p.0, p.1, p.2, λ k. absurd (ground (arith, k)))))))
          (λ h. ret-Triple _ (λ d p. (hr, (p.0, p.1, p.2, λ k. p.3 (removal_clean (clean x) k)))))))
    where
      removal_clean :
          (c : Bool)
          → (if c then none else if b then some committed_cleanup_failure else some incomplete)
            ≡ none
          → c ≡ true
      removal_clean true h = refl
      removal_clean false h = absurd (ground (arith, h))

  environment_failure-Reads :
      (c : Context) (b : Bool) (e : Cause) → Reads disk (environment_failure world c b e)
  unfolding environment_failure ◌>>=◌ ret
  environment_failure-Reads c b e = record { same = λ w. (is_cancellation-Reads lawful c e).same w }

  broken_environment_lem :
      (P : Disk → Type 0) (request : RecoveryRequest) (r : Revision) (b : Bool) (l : Bytes)
      → Triple disk P (broken_environment world request r b l) (λ x. P)
  unfolding broken_environment
  broken_environment_lem P request r b l =
      if-Triple (is_empty request.log_path) (λ h. ret-Triple _ (λ d p. p))
        (λ h.
          >>=-read (lawful.new_broken_reads _ _)
            (λ x. sum-Triple x (λ e h. ret-Triple _ (λ d p. p)) (λ v h. ret-Triple _ (λ d p. p))))

  pub prepare_environment_lem :
      (P : Disk → Type 0) (c : Context) (request : RecoveryRequest) (r : Revision) (b : Bool)
      → Triple disk P (prepare_environment world c request r b) (λ x. P)
  unfolding prepare_environment
  prepare_environment_lem P c request r b = >>-read (lawful.report_reads _) (
      >>=-read (lawful.read_environment_reads c) (λ x.
        sum-Triple x
          (λ e h.
            if-Triple e.not_found (λ h. broken_environment_lem P request r b [])
              (λ h. >>=-read (environment_failure-Reads c b e) (λ f. ret-Triple _ (λ d p. p))))
          (λ v h.
            if-Triple (already_broken v r) (λ h. ret-Triple _ (λ d p. p))
              (λ h. broken_environment_lem P request r b v.last_successful))))

  pub apply_environment_lem :
      (P : Disk → Type 0) (c : Context) (b : Bool) (v : Option EnvironmentState)
      (result : RecoveryResult)
      → result.recovered ≡ false
      → Triple disk P (apply_environment world c b v result) (λ x d. (x.0.recovered ≡ false) × P d)
  unfolding apply_environment
  apply_environment_lem P c b none result hr = ret-Triple _ (λ d p. (hr, p))
  apply_environment_lem P c b (some v) result hr = >>-read (lawful.report_reads _) (
      >>=-read (lawful.write_environment_reads c v) (λ x.
        option-Triple x
          (λ e h.
            if-Triple b (λ h. ret-Triple _ (λ d p. (hr, p)))
              (λ h.
                >>=-read (map_write_failure-Reads lawful c _ e)
                  (λ f. ret-Triple _ (λ d p. (hr, p)))))
          (λ h. ret-Triple _ (λ d p. (hr, p)))))
