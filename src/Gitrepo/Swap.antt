-- ===== src/Gitrepo/Swap.antt =====
-- internal/gitrepo/swap.go: the two renames that put an update in the place of the repository, the
-- commit of the environment and the removal of the old repository. The swapper and the context are not
-- nil. The deadline of the cleanup is one of the errors of its operations.
pub mod Told
pub mod Safe
use auto_mas_runtime.Base.{
  ℕ, ◌≡◌, ◌⊎◌, inl, inr, Bool, true, false, not, ◌&&◌, ◌||◌, Option, none, some, Bytes, codes,
  bytes_eq, if◌then◌else◌, is_none,
}
use auto_mas_runtime.State.Stage.{
  Stage, stage_eq, workspace_swap, workspace_cleanup, workspace_verify,
}
use auto_mas_runtime.State.Transaction.{TransactionState, update_kind, validate_transaction}
use auto_mas_runtime.Gitrepo.Revision.{Revision, revision_valid}
use auto_mas_runtime.Gitrepo.Failure.{
  Cause, RepoError, is_ambiguous, swap_failure_error, ambiguous_error, cancelled_error,
  swap_internal_error, committed_write_failure, committed_environment_failure,
  committed_cleanup_failure,
}
use auto_mas_runtime.Gitrepo.Disk.{Slot, repository_slot, update_slot, previous_slot}
use auto_mas_runtime.Gitrepo.World.{
  Context, caller_context, committed_context, DirectoryInspection, rename_repository_to_retired,
  rename_update_to_repository, RenameRequest, delete_repository_retired, DeleteRequest, clean,
  World, Prog, ret, ◌>>=◌, ◌>>◌, is_cancellation, map_rename_failure, map_write_failure,
}

pub record SwapRequest : Type 0 where
  pub transaction : TransactionState
  pub revision : Revision
  pub active_identity : Option ℕ
  pub update_identity : Option ℕ
  pub has_commit_environment : Bool

-- The flags of a `SwapResult`; its revision is that of the request.
pub record SwapResult : Type 0 where
  pub mutation_applied : Bool
  pub repository_activated : Bool
  pub cleanup_completed : Bool

abbrev pub SwapOutcome : Type 0
SwapOutcome = SwapResult × Option RepoError

abbrev pub no_swap : SwapResult
no_swap = record {
  mutation_applied = false;
  repository_activated = false;
  cleanup_completed = false;
}

-- The result after the second rename.
abbrev pub after_rename : SwapResult → Bool → SwapResult
after_rename before applied = record {
  mutation_applied = before.mutation_applied || applied;
  repository_activated = applied;
  cleanup_completed = false;
}

abbrev pub at_stage : Stage → TransactionState → TransactionState
at_stage stage t = record t { stage = stage }

-- `validateSwapRequest(request) == nil`.
unfoldable pub swap_request_valid : Bool → SwapRequest → Bool
swap_request_valid target_first request =
    is_none (validate_transaction target_first update_kind request.transaction)
    && (stage_eq request.transaction.stage workspace_verify
        && (revision_valid request.revision
            && (bytes_eq request.transaction.target_version request.revision.version
                && request.has_commit_environment)))

unfoldable pub identity_unavailable : SwapOutcome
identity_unavailable =
    (no_swap, some (ambiguous_error workspace_swap (codes "repository_identity_unavailable")))

-- The repository could not be inspected.
unfoldable pub inspection_failure : Bool → Cause → SwapOutcome
inspection_failure cancelled e =
    if cancelled
    then (no_swap, some (cancelled_error workspace_swap))
    else if is_ambiguous e
    then identity_unavailable
    else (no_swap, some (swap_failure_error workspace_swap))

-- The previous path could not be inspected.
unfoldable pub previous_failure : Bool → SwapOutcome
previous_failure true = (no_swap, some (cancelled_error workspace_swap))
previous_failure false =
    (no_swap, some (ambiguous_error workspace_swap (codes "previous_unreadable")))

module _ {σ : Type 0} (world : World σ) where
  -- The removal of the old repository, when there was one.
  unfoldable pub remove_retired : Option ℕ → SwapResult → Prog σ SwapOutcome
  remove_retired none result = ret (record result { cleanup_completed = true }, none)
  remove_retired (some id) result = do
    removal ←
        world.remove committed_context
          (record { kind = delete_repository_retired; target = previous_slot; expected = id })
    ret (
        if clean removal
        then (record result { cleanup_completed = true }, none)
        else (result, some committed_cleanup_failure))

  -- From the cleanup transaction on.
  unfoldable pub commit_swap : SwapRequest → Option ℕ → SwapResult → Prog σ SwapOutcome
  commit_swap request retired result = do
    world.report workspace_cleanup
    written ←
        world.write_transaction committed_context (at_stage workspace_cleanup request.transaction)
    elim written [
      | some _ ↦ ret (result, some (committed_write_failure workspace_cleanup))
      | none ↦ do
        committed ← world.commit_environment request.revision
        elim committed [
          | some e ↦ ret (result, some (committed_environment_failure e))
          | none ↦ do world.report workspace_cleanup; remove_retired retired result
        ]
    ]

  -- The second rename, and what follows.
  unfoldable pub activate_update : SwapRequest → ℕ → Option ℕ → SwapResult → Prog σ SwapOutcome
  activate_update request update_id retired before = do
    renamed ← world.rename caller_context (record {
      kind = rename_update_to_repository;
      source = update_slot;
      destination = repository_slot;
      expected = update_id;
    })
    let result = after_rename before renamed.0
    elim renamed.1 [
      | some e ↦ do
        failure ← map_rename_failure world caller_context e renamed.0 renamed.0
        ret (result, some failure)
      | none ↦
          if not renamed.0
          then ret (result, some (swap_failure_error workspace_swap))
          else commit_swap request retired result
    ]

  -- The first rename, of a repository that exists.
  unfoldable pub retire_repository : SwapRequest → ℕ → ℕ → Prog σ SwapOutcome
  retire_repository request update_id active_id = do
    renamed ← world.rename caller_context (record {
      kind = rename_repository_to_retired;
      source = repository_slot;
      destination = previous_slot;
      expected = active_id;
    })
    let result = record no_swap { mutation_applied = renamed.0 }
    elim renamed.1 [
      | some e ↦ do
        failure ← map_rename_failure world caller_context e renamed.0 false
        ret (result, some failure)
      | none ↦
          if not renamed.0
          then ret (result, some (swap_failure_error workspace_swap))
          else activate_update request update_id (some active_id) result
    ]

  -- What follows the inspection of the repository.
  unfoldable pub swap_inspected : SwapRequest → ℕ → Cause ⊎ DirectoryInspection → Prog σ SwapOutcome
  swap_inspected request update_id (inl e) = do
    cancelled ← is_cancellation world caller_context e
    ret (inspection_failure cancelled e)
  swap_inspected request update_id (inr i) =
      if not i.exists then activate_update request update_id none no_swap else elim i.identity [
        | none ↦ ret identity_unavailable
        | some _ ↦ elim request.active_identity [
          | none ↦ ret identity_unavailable
          | some active_id ↦ retire_repository request update_id active_id
        ]
      ]

  -- What follows the inspection of the previous path.
  unfoldable pub swap_previous : SwapRequest → ℕ → Cause ⊎ DirectoryInspection → Prog σ SwapOutcome
  swap_previous request update_id (inl e) = do
    cancelled ← is_cancellation world caller_context e
    ret (previous_failure cancelled)
  swap_previous request update_id (inr i) =
      if i.exists
      then ret (no_swap, some (ambiguous_error workspace_swap (codes "previous_exists")))
      else do
        inspection ← world.inspect caller_context repository_slot
        swap_inspected request update_id inspection

  -- From the swap transaction on.
  unfoldable pub swap_transaction : SwapRequest → ℕ → Prog σ SwapOutcome
  swap_transaction request update_id = do
    written ← world.write_transaction caller_context (at_stage workspace_swap request.transaction)
    elim written [
      | some e ↦ do
        failure ← map_write_failure world caller_context workspace_swap e
        ret (no_swap, some failure)
      | none ↦ do
        previous ← world.inspect caller_context previous_slot
        swap_previous request update_id previous
    ]

  -- What follows the first test of the context.
  unfoldable pub swap_started : Bool → SwapRequest → Prog σ SwapOutcome
  swap_started stopped request =
      if stopped
      then ret (no_swap, some (cancelled_error workspace_swap))
      else elim request.update_identity [
        | none ↦ ret (
          no_swap,
          some (ambiguous_error workspace_swap (codes "directory_identity_unavailable")),
        )
        | some update_id ↦
            if not (world.paths_ok request.transaction.operation_id)
            then ret (no_swap, some swap_internal_error)
            else swap_transaction request update_id
      ]

  -- `Swap`.
  unfoldable pub swap : Bool → SwapRequest → Prog σ SwapOutcome
  swap target_first request =
      if not (swap_request_valid target_first request)
      then ret (no_swap, some swap_internal_error)
      else do
        world.report workspace_swap
        stopped ← world.ctx_err caller_context
        swap_started stopped request
