-- ===== src/Gitrepo/Recovery/Paths.antt =====
-- internal/gitrepo/recovery.go: what a recovery asks of classified paths, and its requests.
use auto_mas_runtime.Base.{
  ℕ, Bool, true, false, not, ◌&&◌, ◌||◌, List, [], ◌∷◌, Option, none, some, Bytes, bytes_eq,
  is_empty, if◌then◌else◌,
}
use auto_mas_runtime.State.Stage.{Stage, stage_eq, workspace_cleanup}
use auto_mas_runtime.State.Transaction.{TransactionState}
use auto_mas_runtime.Gitrepo.Revision.{Revision}
use auto_mas_runtime.Gitrepo.Failure.{ambiguous_error}
use auto_mas_runtime.Gitrepo.Disk.{repository_slot, update_slot, previous_slot}
use auto_mas_runtime.Gitrepo.World.{
  DeleteRequest, delete_repository_update, delete_repository_retired, RenameRequest,
  rename_repository_rollback, rename_update_to_repository, Prog, ret,
}
use auto_mas_runtime.Gitrepo.Recovery.{
  RecoveryPath, missing_path, incomplete_path, valid_path, RecoveryOutcome, no_recovery,
  same_revision, is_target,
}

abbrev pub refuse : {σ : Type 0} → Stage → Bytes → Prog σ RecoveryOutcome
refuse stage reason = ret (no_recovery, ambiguous_error stage reason ∷ [])

abbrev pub is_missing : RecoveryPath → Bool
is_missing missing_path = true
is_missing _ = false

abbrev pub is_incomplete : RecoveryPath → Bool
is_incomplete (incomplete_path id) = true
is_incomplete _ = false

abbrev pub is_valid : RecoveryPath → Bool
is_valid (valid_path r id) = true
is_valid _ = false

-- The expected identity of a removal or a rename.
abbrev pub directory_identity : RecoveryPath → ℕ
directory_identity missing_path = 0
directory_identity (incomplete_path id) = id
directory_identity (valid_path r id) = id

abbrev pub update_removal : ℕ → DeleteRequest
update_removal id = record { kind = delete_repository_update; target = update_slot; expected = id }

abbrev pub retired_removal : ℕ → DeleteRequest
retired_removal id = record {
  kind = delete_repository_retired;
  target = previous_slot;
  expected = id;
}

abbrev pub rollback : ℕ → RenameRequest
rollback id = record {
  kind = rename_repository_rollback;
  source = previous_slot;
  destination = repository_slot;
  expected = id;
}

abbrev pub activation : ℕ → RenameRequest
activation id = record {
  kind = rename_update_to_repository;
  source = update_slot;
  destination = repository_slot;
  expected = id;
}

-- `hasMultipleTargetRevisions`.
unfoldable pub has_multiple_target_revisions : Bytes → List RecoveryPath → Bool
has_multiple_target_revisions version paths = go none paths
  where
    go : Option Revision → List RecoveryPath → Bool
    go first [] = false
    go first (path ∷ rest) = if not (is_target version path) then go first rest else elim path [
      | missing_path ↦ go first rest
      | incomplete_path id ↦ go first rest
      | valid_path r id ↦ elim first [
        | none ↦ go (some r) rest
        | some f ↦ not (same_revision f r) || go (some f) rest
      ]
    ]

-- Two paths that are valid name different revisions.
abbrev pub differ : RecoveryPath → RecoveryPath → Bool
differ (valid_path a i) (valid_path b j) = not (same_revision a b)
differ _ _ = false

-- `isTarget` of `recoverSwap`.
unfoldable pub is_swap_target : TransactionState → RecoveryPath → Bool
is_swap_target t missing_path = false
is_swap_target t (incomplete_path id) = false
is_swap_target t (valid_path r id) =
    bytes_eq r.version t.target_version
    && (is_empty t.target_commit || bytes_eq r.commit t.target_commit)

-- `completeIncompletePrevious`.
unfoldable pub completes_previous :
    TransactionState → RecoveryPath → RecoveryPath → RecoveryPath → Bool
completes_previous t repository update previous =
    stage_eq t.stage workspace_cleanup
    && (not (is_empty t.target_commit)
        && (is_swap_target t repository && (is_missing update && is_incomplete previous)))
