-- ===== src/Gitrepo/Recovery/Shapes.antt =====
-- internal/gitrepo/recovery.go: what a recovery does, by the shape of the three directories.
use auto_mas_runtime.Base.{
  ℕ, inl, inr, Bool, true, false, not, ◌&&◌, ◌||◌, [], ◌∷◌, Option, none, some, codes, is_empty,
  if◌then◌else◌,
}
use auto_mas_runtime.State.Stage.{stage_eq, workspace_clone}
use auto_mas_runtime.State.Transaction.{TransactionState}
use auto_mas_runtime.Gitrepo.Revision.{Revision}
use auto_mas_runtime.Gitrepo.Failure.{RepoError}
use auto_mas_runtime.Gitrepo.World.{
  Context, caller_context, committed_context, EnvironmentState, World, Prog, ret, ◌>>=◌,
}
use auto_mas_runtime.Gitrepo.Recovery.{
  RecoveryPath, missing_path, valid_path, RecoveryResult, RecoveryOutcome, no_recovery,
  result_with_identity, is_target,
}
use auto_mas_runtime.Gitrepo.Recovery.Step.{rename_recovery, remove_recovery, finish_recovery}
use auto_mas_runtime.Gitrepo.Recovery.Environment.{
  RecoveryRequest, prepare_environment, apply_environment,
}
use auto_mas_runtime.Gitrepo.Recovery.Paths.{
  refuse, is_missing, is_incomplete, is_valid, directory_identity, update_removal, retired_removal,
  rollback, activation, has_multiple_target_revisions, differ, is_swap_target, completes_previous,
}

module _ {σ : Type 0} (world : World σ) where
  -- The removal of an update that exists, and the end of the recovery.
  unfoldable pub discard_update :
      Context → Bool → TransactionState → RecoveryPath → RecoveryResult → Prog σ RecoveryOutcome
  discard_update ctx committed t update result =
      if is_missing update then finish_recovery world ctx committed t result else do
        removed ←
            remove_recovery world ctx committed (update_removal (directory_identity update)) result
        elim removed.1 [
          | some e ↦ ret (removed.0, e ∷ [])
          | none ↦ finish_recovery world ctx committed t removed.0
        ]

  -- `recoverBeforeSwap`.
  unfoldable pub recover_before_swap :
      TransactionState → RecoveryPath → RecoveryPath → RecoveryPath → Prog σ RecoveryOutcome
  recover_before_swap t repository update previous =
      if is_missing repository && is_target t.target_version update
      then refuse t.stage (codes "pre_swap_repository_missing")
      else if is_empty t.target_commit
          && is_target t.target_version repository
          && is_target t.target_version update
          && differ repository update
      then refuse t.stage (codes "multiple_target_commits")
      else if not (is_missing previous)
          || (is_valid update && not (is_target t.target_version update)
              || is_incomplete update && not (stage_eq t.stage workspace_clone))
      then refuse t.stage (codes "pre_swap_identity")
      else discard_update caller_context false t update no_recovery

  -- What follows the environment in `completeActiveTarget`.
  unfoldable pub remove_previous :
      TransactionState → RecoveryPath → RecoveryResult → Prog σ RecoveryOutcome
  remove_previous t previous result =
      if is_missing previous then finish_recovery world committed_context true t result else do
        removed ←
            remove_recovery world committed_context true
              (retired_removal (directory_identity previous)) result
        elim removed.1 [
          | some e ↦ ret (removed.0, e ∷ [])
          | none ↦ finish_recovery world committed_context true t removed.0
        ]

  -- `completeActiveTarget`.
  unfoldable pub complete_active_target :
      RecoveryRequest → TransactionState → Revision → RecoveryPath → Prog σ RecoveryOutcome
  complete_active_target request t identity previous = do
    plan ← prepare_environment world committed_context request identity true
    elim plan [
      | inl e ↦ ret (no_recovery, e ∷ [])
      | inr value ↦ do
        applied ←
            apply_environment world committed_context true value
              (result_with_identity identity true)
        elim applied.1 [
          | some e ↦ ret (applied.0, e ∷ [])
          | none ↦ remove_previous t previous applied.0
        ]
    ]

  -- The old repository is put back, and an update that is there is removed.
  unfoldable pub roll_back : TransactionState → ℕ → RecoveryPath → Prog σ RecoveryOutcome
  roll_back t previous_id update = do
    renamed ← rename_recovery world (rollback previous_id) no_recovery
    elim renamed.1 [
      | some e ↦ ret (renamed.0, e ∷ [])
      | none ↦ discard_update committed_context true t update renamed.0
    ]

  -- The environment is written although the rename reported an error.
  unfoldable pub activation_failed :
      Option EnvironmentState → RecoveryResult → RepoError → Prog σ RecoveryOutcome
  activation_failed plan result e = if not result.mutation_applied then ret (result, e ∷ []) else do
    applied ← apply_environment world committed_context true plan result
    ret (
      applied.0,
      elim applied.1 [ some environment_error ↦ e ∷ environment_error ∷ [] | none ↦ e ∷ [] ],
    )

  -- The update takes the empty place of the repository.
  unfoldable pub roll_forward :
      RecoveryRequest → TransactionState → Revision → ℕ → Prog σ RecoveryOutcome
  roll_forward request t identity update_id = do
    plan ← prepare_environment world caller_context request identity false
    elim plan [
      | inl e ↦ ret (no_recovery, e ∷ [])
      | inr value ↦ do
        renamed ← rename_recovery world (activation update_id) (result_with_identity identity false)
        elim renamed.1 [
          | some e ↦ activation_failed value renamed.0 e
          | none ↦ do
            applied ← apply_environment world committed_context true value renamed.0
            elim applied.1 [
              | some e ↦ ret (applied.0, e ∷ [])
              | none ↦ finish_recovery world committed_context true t applied.0
            ]
        ]
    ]

  -- The cases of `recoverSwap` with no repository.
  unfoldable pub recover_missing :
      RecoveryRequest → TransactionState → RecoveryPath → RecoveryPath → Prog σ RecoveryOutcome
  recover_missing request t update (valid_path p previous_id) =
      if is_swap_target t update || is_missing update
      then roll_back t previous_id update
      else refuse t.stage (codes "swap_shape")
  recover_missing request t (valid_path u update_id) missing_path =
      if is_swap_target t (valid_path u update_id)
      then roll_forward request t u update_id
      else refuse t.stage (codes "swap_shape")
  recover_missing request t update previous = refuse t.stage (codes "swap_shape")

  -- The case of `recoverSwap` with a repository that is the target; `incomplete_ok` is
  -- `completeIncompletePrevious`.
  unfoldable pub recover_active :
      RecoveryRequest
      → TransactionState
      → Bool
      → RecoveryPath
      → RecoveryPath
      → RecoveryPath
      → Prog σ RecoveryOutcome
  recover_active request t incomplete_ok (valid_path r id) update previous =
      if not (is_missing update)
        || not (is_missing previous) && not (is_valid previous) && not incomplete_ok
      then refuse t.stage (codes "active_target_shape")
      else complete_active_target request t r previous
  recover_active request t incomplete_ok repository update previous =
      refuse t.stage (codes "swap_shape")

  -- The cases of `recoverSwap` with a repository.
  unfoldable pub recover_present :
      RecoveryRequest
      → TransactionState
      → Bool
      → RecoveryPath
      → RecoveryPath
      → RecoveryPath
      → Prog σ RecoveryOutcome
  recover_present request t incomplete_ok repository update previous =
      if is_swap_target t repository
      then recover_active request t incomplete_ok repository update previous
      else if is_swap_target t update && is_missing previous
      then discard_update caller_context false t update no_recovery
      else refuse t.stage (codes "swap_shape")

  -- `recoverSwap`.
  unfoldable pub recover_swap :
      RecoveryRequest
      → TransactionState
      → RecoveryPath
      → RecoveryPath
      → RecoveryPath
      → Prog σ RecoveryOutcome
  recover_swap request t repository update previous =
      if is_incomplete update
      then refuse t.stage (codes "swap_incomplete")
      else if is_empty t.target_commit
          && has_multiple_target_revisions t.target_version (repository ∷ update ∷ previous ∷ [])
      then refuse t.stage (codes "multiple_target_candidates")
      else if is_incomplete previous && not (completes_previous t repository update previous)
      then refuse t.stage (codes "swap_incomplete")
      else if is_missing repository
      then recover_missing request t update previous
      else recover_present request t (completes_previous t repository update previous) repository
          update previous
