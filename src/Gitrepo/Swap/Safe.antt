-- ===== src/Gitrepo/Swap/Safe.antt =====
-- internal/gitrepo/swap.go: where the two repositories are after a swap, in any lawful world.
use auto_mas_runtime.Base.{
  ℕ, ◌≡◌, refl, ◌⊎◌, inl, inr, Bool, true, false, not, Option, none, some, is_none, arith,
}
use auto_mas_runtime.State.Stage.{workspace_swap}
use auto_mas_runtime.Gitrepo.Failure.{Cause, swap_failure_error}
use auto_mas_runtime.Gitrepo.Disk.{Directory, Disk}
use auto_mas_runtime.Gitrepo.World.{DirectoryInspection, World}
use auto_mas_runtime.Gitrepo.World.Rules.{
  Triple, IsLawful, ret-Triple, >>=-Triple, >>=-read, >>-read, leave-Triple, if-Triple,
  option-Triple, weaken-Triple,
}
use auto_mas_runtime.Gitrepo.World.Calls.{
  rename-Triple, remove-Triple, is_cancellation-Reads, map_write_failure-uncommitted,
  map_rename_failure-committed,
}
use auto_mas_runtime.Gitrepo.Swap.{
  SwapRequest, SwapResult, no_swap, swap_request_valid, remove_retired, commit_swap,
  activate_update, retire_repository, identity_unavailable, inspection_failure, previous_failure,
  swap_inspected, swap_previous, swap_transaction, swap_started, swap,
}
use auto_mas_runtime.Gitrepo.Swap.Told.{
  Ready, Retired, SwapTells, Activated, removed, environment_failed, Renamed, Before, renamed,
  rename_failed, not_renamed, now_active, Moving, retired_or_Ready, stopped_moving, refused_ready,
  now_retired,
}

module _ {σ : Type 0} {disk : σ → Disk} {world : World σ} (lawful : IsLawful disk world) where
  module _ (old : Option Directory) (new : Directory) where
    remove_retired_lem :
        (retired : Option ℕ) (r : SwapResult)
        → r.repository_activated ≡ true
        → r.cleanup_completed ≡ false
        → Triple disk
            (λ d. Activated old new retired d.dirs)
            (remove_retired world retired r)
            (λ x d. SwapTells old new x d.dirs)
    unfolding remove_retired
    remove_retired_lem none r h1 h2 = ret-Triple _ (λ d p. ground (arith, h1, h2, p.0, p.1 refl))
    remove_retired_lem (some id) r h1 h2 =
        >>=-Triple (remove-Triple lawful (Activated old new (some id)) _ _)
          (λ x. ret-Triple _ (λ d p. removed old new r x p.0 d.dirs h1 h2 (p.1.0) p.2 p.3))

    commit_swap_lem :
        (request : SwapRequest) (retired : Option ℕ) (r : SwapResult)
        → r.repository_activated ≡ true
        → r.cleanup_completed ≡ false
        → Triple disk
            (λ d. Activated old new retired d.dirs)
            (commit_swap world request retired r)
            (λ x d. SwapTells old new x d.dirs)
    unfolding commit_swap
    commit_swap_lem request retired r h1 h2 = >>-read (lawful.report_reads _) (
        >>=-Triple (leave-Triple (Activated old new retired) (lawful.write_transaction_leaves _ _))
          (λ x.
            option-Triple x (λ e h. ret-Triple _ (λ d p. ground (arith, h1, h2, p.0)))
              (λ h. >>=-read (lawful.commit_environment_reads _) (λ y.
                option-Triple y
                  (λ e h. ret-Triple _ (λ d p. environment_failed old new r e d.dirs h1 h2 p.0))
                  (λ h. >>-read (lawful.report_reads _) (remove_retired_lem retired r h1 h2))))))

    activate_update_lem :
        (request : SwapRequest) (id : ℕ) (retired : Option ℕ) (before : SwapResult)
        → Triple disk
            (λ d.
              (is_none retired ≡ true → d.dirs.previous ≡ none)
              × (Ready old new d.dirs ⊎ Retired old new d.dirs))
            (activate_update world request id retired before)
            (λ x d. SwapTells old new x d.dirs)
    unfolding activate_update
    activate_update_lem request id retired before =
        >>=-Triple (rename-Triple lawful (Before old new retired) _ _) (λ x.
          weaken-Triple (λ d p. renamed old new x retired p.0 d.dirs (p.1) (p.2))
            (option-Triple x.1
              (λ e h.
                >>=-Triple
                  (map_rename_failure-committed lawful (λ d. Renamed old new x.0 retired d.dirs) _ e
                    _ _)
                  (λ y.
                    ret-Triple _
                      (λ d p. rename_failed old new before x.0 y retired d.dirs p.0 p.1)))
              (λ h.
                if-Triple (not x.0)
                  (λ hb. ret-Triple _ (λ d p. not_renamed old new before x.0 retired d.dirs hb p))
                  (λ hb.
                    weaken-Triple (λ d p. now_active old new x.0 retired d.dirs hb p)
                      (commit_swap_lem request retired _ (ground (arith, hb)) refl)))))

    retire_repository_lem :
        (request : SwapRequest) (id active : ℕ)
        → Triple disk
            (λ d. Ready old new d.dirs)
            (retire_repository world request id active)
            (λ x d. SwapTells old new x d.dirs)
    unfolding retire_repository
    retire_repository_lem request id active =
        >>=-Triple (rename-Triple lawful (Ready old new) _ _) (λ x.
          weaken-Triple (λ d p. retired_or_Ready old new x p.0 d.dirs p.1 p.2)
            (option-Triple x.1
              (λ e h.
                >>=-Triple
                  (map_rename_failure-committed lawful (λ d. Moving old new x.0 d.dirs) _ e _ _)
                  (λ y. ret-Triple _ (λ d p. stopped_moving old new x.0 y d.dirs p.0 p.1)))
              (λ h.
                if-Triple (not x.0)
                  (λ hb. ret-Triple _ (λ d p.
                    stopped_moving old new x.0 (swap_failure_error workspace_swap) d.dirs p refl))
                  (λ hb.
                    weaken-Triple (λ d p. now_retired old new x.0 active d.dirs hb p)
                      (activate_update_lem request id (some active) _)))))

    swap_inspected_lem :
        (request : SwapRequest) (id : ℕ) (x : Cause ⊎ DirectoryInspection)
        → Triple disk
            (λ d. Ready old new d.dirs)
            (swap_inspected world request id x)
            (λ x d. SwapTells old new x d.dirs)
    unfolding swap_inspected inspection_failure identity_unavailable
    swap_inspected_lem request id (inl e) =
        >>=-read (is_cancellation-Reads lawful _ e)
          (λ b. ret-Triple (inspection_failure b e) (λ d p. ground (arith, p)))
    swap_inspected_lem request id (inr i) =
        if-Triple (not i.exists)
          (λ h.
            weaken-Triple (λ d p. ((λ h. p.1), inl p))
              (activate_update_lem request id none no_swap))
          (λ h.
            option-Triple i.identity
              (λ a h.
                option-Triple request.active_identity (λ b h. retire_repository_lem request id b)
                  (λ h. ret-Triple _ (λ d p. ground (arith, p))))
              (λ h. ret-Triple _ (λ d p. ground (arith, p))))

    swap_previous_lem :
        (request : SwapRequest) (id : ℕ) (x : Cause ⊎ DirectoryInspection)
        → Triple disk
            (λ d. Ready old new d.dirs)
            (swap_previous world request id x)
            (λ x d. SwapTells old new x d.dirs)
    unfolding swap_previous previous_failure
    swap_previous_lem request id (inl e) =
        >>=-read (is_cancellation-Reads lawful _ e)
          (λ b. ret-Triple (previous_failure b) (λ d p. ground (arith, p)))
    swap_previous_lem request id (inr i) =
        if-Triple i.exists (λ h. ret-Triple _ (λ d p. ground (arith, p)))
          (λ h. >>=-read (lawful.inspect_reads _ _) (λ x. swap_inspected_lem request id x))

    swap_transaction_lem :
        (request : SwapRequest) (id : ℕ)
        → Triple disk
            (λ d. Ready old new d.dirs)
            (swap_transaction world request id)
            (λ x d. SwapTells old new x d.dirs)
    unfolding swap_transaction
    swap_transaction_lem request id =
        >>=-Triple (leave-Triple (Ready old new) (lawful.write_transaction_leaves _ _)) (λ x.
          option-Triple x
            (λ e h.
              >>=-Triple (map_write_failure-uncommitted lawful (λ d. Ready old new d.dirs) _ _ e)
                (λ y. ret-Triple _ (λ d p. refused_ready old new y d.dirs p.1 p.0)))
            (λ h. >>=-read (lawful.inspect_reads _ _) (λ x. swap_previous_lem request id x)))

    swap_started_lem :
        (stopped : Bool) (request : SwapRequest)
        → Triple disk
            (λ d. Ready old new d.dirs)
            (swap_started world stopped request)
            (λ x d. SwapTells old new x d.dirs)
    unfolding swap_started
    swap_started_lem stopped request =
        if-Triple stopped (λ h. ret-Triple _ (λ d p. ground (arith, p)))
          (λ h.
            option-Triple request.update_identity
              (λ id h.
                if-Triple (not (world.paths_ok request.transaction.operation_id))
                  (λ h. ret-Triple _ (λ d p. ground (arith, p)))
                  (λ h. swap_transaction_lem request id))
              (λ h. ret-Triple _ (λ d p. ground (arith, p))))

    pub swap_lem :
        (target_first : Bool) (request : SwapRequest)
        → Triple disk
            (λ d. Ready old new d.dirs)
            (swap world target_first request)
            (λ x d. SwapTells old new x d.dirs)
    unfolding swap
    swap_lem target_first request =
        if-Triple (not (swap_request_valid target_first request))
          (λ h. ret-Triple _ (λ d p. ground (arith, p)))
          (λ h.
            >>-read (lawful.report_reads _)
              (>>=-read (lawful.ctx_err_reads _) (λ b. swap_started_lem b request)))
