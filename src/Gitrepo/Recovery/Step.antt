-- ===== src/Gitrepo/Recovery/Step.antt =====
-- internal/gitrepo/recovery.go: one rename, one removal and the end of a recovery, with the errors that
-- they make.
use auto_mas_runtime.Base.{
  Bool, true, false, not, ◌&&◌, ◌||◌, [], ◌∷◌, none, some, Bytes, codes, if◌then◌else◌,
}
use auto_mas_runtime.State.Stage.{Stage, workspace_swap, workspace_cleanup}
use auto_mas_runtime.State.Transaction.{TransactionState}
use auto_mas_runtime.Gitrepo.Failure.{
  Cause, RepoError, new_error, is_ambiguous, ambiguous_error, swap_failure_error, cancelled_error,
  committed_write_failure, committed_cleanup_failure, git_repo_cleanup_failed,
}
use auto_mas_runtime.Gitrepo.World.{
  Context, caller_context, RenameRequest, RenameKind, rename_update_to_repository, DeleteRequest,
  clean, World, Prog, ret, ◌>>=◌, ◌>>◌, is_cancellation, map_rename_failure, map_write_failure,
}
use auto_mas_runtime.Gitrepo.Recovery.{RecoveryResult, RecoveryOutcome, RecoveryStep}

abbrev is_activation : RenameKind → Bool
is_activation rename_update_to_repository = true
is_activation _ = false

module _ {σ : Type 0} (world : World σ) where
  -- `classificationError`.
  unfoldable pub classification_error : Stage → Bytes → Cause → Prog σ RepoError
  classification_error stage reason cause = do
    cancelled ← is_cancellation world caller_context cause
    ret (if cancelled then cancelled_error stage else ambiguous_error stage reason)

  -- `renameRecoveryRepository`.
  unfoldable pub rename_recovery : RenameRequest → RecoveryResult → Prog σ RecoveryStep
  rename_recovery request result = do
    world.report workspace_swap
    renamed ← world.rename caller_context request
    let after = record result { mutation_applied = result.mutation_applied || renamed.0 }
    elim renamed.1 [
      | some e ↦
          if is_ambiguous e && not renamed.0
          then ret
              (after, some (ambiguous_error workspace_swap (codes "directory_identity_changed")))
          else do
            failure ←
                map_rename_failure world caller_context e renamed.0
                  (is_activation request.kind && renamed.0)
            ret (after, some failure)
      | none ↦ ret (after, if renamed.0 then none else some (swap_failure_error workspace_swap))
    ]

  -- The error of a removal that failed.
  unfoldable pub removal_failure : Context → Bool → Cause → Prog σ RepoError
  removal_failure ctx true e = ret committed_cleanup_failure
  removal_failure ctx false e =
      if is_ambiguous e
      then ret (ambiguous_error workspace_cleanup (codes "directory_identity_changed"))
      else do
        cancelled ← is_cancellation world ctx e
        ret (
            if cancelled
            then cancelled_error workspace_cleanup
            else new_error git_repo_cleanup_failed workspace_cleanup none)

  -- `removeRecoveryTree`.
  unfoldable pub remove_recovery :
      Context → Bool → DeleteRequest → RecoveryResult → Prog σ RecoveryStep
  remove_recovery ctx committed request result = do
    world.report workspace_cleanup
    removal ← world.remove ctx request
    let after = record result {
      mutation_applied = result.mutation_applied || (removal.0.removed || removal.0.partial);
    }
    elim removal.1 [
      | some e ↦ do failure ← removal_failure ctx committed e; ret (after, some failure)
      | none ↦ ret (
        after,
        if clean removal
            then none
            else if committed
            then some committed_cleanup_failure
            else some (new_error git_repo_cleanup_failed workspace_cleanup none),
      )
    ]

  -- `finishRecovery`.
  unfoldable pub finish_recovery :
      Context → Bool → TransactionState → RecoveryResult → Prog σ RecoveryOutcome
  finish_recovery ctx committed transaction result = do
    world.report workspace_cleanup
    removed ← world.remove_transaction ctx transaction
    elim removed [
      | some e ↦
          if committed then ret (result, committed_write_failure workspace_cleanup ∷ []) else do
            failure ← map_write_failure world ctx workspace_cleanup e
            ret (result, failure ∷ [])
      | none ↦ ret (record result { recovered = true; transaction_removed = true }, [])
    ]
