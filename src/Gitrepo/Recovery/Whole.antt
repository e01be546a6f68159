-- ===== src/Gitrepo/Recovery/Whole.antt =====
-- internal/gitrepo/recovery.go: `Recover`, which reads the transaction, classifies the three paths and
-- only then changes the disk.
use auto_mas_runtime.Base.{
  inl, inr, Bool, true, false, not, ◌&&◌, ◌||◌, List, [], ◌∷◌, Option, Bytes, codes, bytes_eq,
  is_empty, is_none, if◌then◌else◌,
}
use auto_mas_runtime.State.Stage.{
  Stage, stage_eq, workspace_clone, workspace_verify, workspace_swap, workspace_cleanup,
}
use auto_mas_runtime.State.Transaction.{TransactionState, update_kind, validate_transaction}
use auto_mas_runtime.Mirror.Source.{Source}
use auto_mas_runtime.Gitrepo.Failure.{
  Cause, ambiguous_error, cancelled_error, recovery_internal_error,
}
use auto_mas_runtime.Gitrepo.Disk.{repository_slot, update_slot, previous_slot}
use auto_mas_runtime.Gitrepo.World.{caller_context, World, Prog, ret, ◌>>=◌, ◌>>◌, is_cancellation}
use auto_mas_runtime.Gitrepo.Recovery.{
  RecoveryPath, valid_path, PathPolicy, RecoveryOutcome, no_recovery, is_target, classify_path,
}
use auto_mas_runtime.Gitrepo.Recovery.Step.{classification_error}
use auto_mas_runtime.Gitrepo.Recovery.Environment.{RecoveryRequest}
use auto_mas_runtime.Gitrepo.Recovery.Shapes.{discard_update, recover_before_swap, recover_swap}
use auto_mas_runtime.Gitrepo.Recovery.Paths.{refuse, is_valid}

-- A transaction of `workspace stage` in the clone or the verify stage.
abbrev pub is_staged : TransactionState → Bool
is_staged t =
    bytes_eq t.command (codes "workspace stage")
    && (stage_eq t.stage workspace_clone || stage_eq t.stage workspace_verify)

-- A staged update that waits for the next bootstrap.
abbrev pub waits : RecoveryRequest → TransactionState → Bool
waits request t =
    bytes_eq t.command (codes "workspace stage")
    && (stage_eq t.stage workspace_verify && not request.discard_staged)

-- The commit of a path that is valid is one of two.
abbrev commit_among : Bytes → Bytes → RecoveryPath → Bool
commit_among a b (valid_path r id) = bytes_eq r.commit a || bytes_eq r.commit b
commit_among a b _ = true

unfoldable pub commit_mismatch :
    TransactionState → RecoveryPath → RecoveryPath → RecoveryPath → Bool
commit_mismatch t repository update previous =
    not (is_empty t.target_commit)
    && (not (commit_among t.target_commit t.target_commit update)
        || (not (commit_among t.base_commit t.base_commit previous)
            || not (commit_among t.target_commit t.base_commit repository)))

abbrev pub update_policy : TransactionState → PathPolicy
update_policy t = record {
  allow_unreadable = stage_eq t.stage workspace_clone;
  allow_invalid_identity = false;
}

abbrev pub repository_policy : TransactionState → PathPolicy
repository_policy t = record {
  allow_unreadable =
      stage_eq t.stage workspace_clone
      || (stage_eq t.stage workspace_verify || stage_eq t.stage workspace_swap);
  allow_invalid_identity = stage_eq t.stage workspace_swap;
}

abbrev pub previous_policy : TransactionState → PathPolicy
previous_policy t = record {
  allow_unreadable = stage_eq t.stage workspace_cleanup;
  allow_invalid_identity = stage_eq t.stage workspace_cleanup;
}

module _ {σ : Type 0} (world : World σ) (git_sources : List Source)
    (parse_version : Bytes → Option Bytes) where
  -- A path cannot be classified.
  unfoldable pub classification_failed : Stage → Bytes → Cause → Prog σ RecoveryOutcome
  classification_failed stage reason e = do
    failure ← classification_error world stage reason e
    ret (no_recovery, failure ∷ [])

  -- The recovery of a transaction that waits.
  unfoldable pub recover_staged : TransactionState → Prog σ RecoveryOutcome
  recover_staged t = do
    update ← classify_path world git_sources parse_version update_slot (update_policy t)
    elim update [
      | inl e ↦ classification_failed t.stage (codes "staged_update_unknown") e
      | inr path ↦
          if is_valid path && not (is_target t.target_version path)
          then refuse t.stage (codes "staged_update_identity")
          else discard_update world caller_context false t path no_recovery
    ]

  -- Once the three paths are classified.
  unfoldable pub recover_classified :
      RecoveryRequest
      → TransactionState
      → RecoveryPath
      → RecoveryPath
      → RecoveryPath
      → Prog σ RecoveryOutcome
  recover_classified request t repository update previous =
      if commit_mismatch t repository update previous
      then refuse t.stage (codes "transaction_commit_mismatch")
      else if stage_eq t.stage workspace_clone || stage_eq t.stage workspace_verify
      then recover_before_swap world t repository update previous
      else if stage_eq t.stage workspace_swap || stage_eq t.stage workspace_cleanup
      then recover_swap world request t repository update previous
      else refuse t.stage (codes "stage_invalid")

  unfoldable pub classify_previous :
      RecoveryRequest → TransactionState → RecoveryPath → RecoveryPath → Prog σ RecoveryOutcome
  classify_previous request t repository update = do
    previous ← classify_path world git_sources parse_version previous_slot (previous_policy t)
    elim previous [
      | inl e ↦ classification_failed t.stage (codes "previous_unknown") e
      | inr path ↦ recover_classified request t repository update path
    ]

  unfoldable pub classify_update :
      RecoveryRequest → TransactionState → RecoveryPath → Prog σ RecoveryOutcome
  classify_update request t repository = do
    update ← classify_path world git_sources parse_version update_slot (update_policy t)
    elim update [
      | inl e ↦ classification_failed t.stage (codes "update_unknown") e
      | inr path ↦ classify_previous request t repository path
    ]

  unfoldable pub classify_repository : RecoveryRequest → TransactionState → Prog σ RecoveryOutcome
  classify_repository request t = do
    repository ← classify_path world git_sources parse_version repository_slot (repository_policy t)
    elim repository [
      | inl e ↦ classification_failed t.stage (codes "repository_unknown") e
      | inr path ↦ classify_update request t path
    ]

  -- Once the transaction is read.
  unfoldable pub recover_transaction :
      Bool → RecoveryRequest → TransactionState → Prog σ RecoveryOutcome
  recover_transaction target_first request t =
      if not (is_none (validate_transaction target_first update_kind t))
      then refuse workspace_cleanup (codes "transaction_invalid")
      else if waits request t
      then ret (no_recovery, [])
      else if not (world.paths_ok t.operation_id)
      then ret (no_recovery, recovery_internal_error ∷ [])
      else if is_staged t
      then recover_staged t
      else classify_repository request t

  -- The transaction cannot be read.
  unfoldable pub recover_unread : Cause → Prog σ RecoveryOutcome
  recover_unread e = if e.not_found then ret (no_recovery, []) else do
    cancelled ← is_cancellation world caller_context e
    ret (
      no_recovery,
      (if cancelled
            then cancelled_error workspace_cleanup
            else ambiguous_error workspace_cleanup (codes "transaction_unreadable"))
          ∷ [],
    )

  -- `Recover`.
  unfoldable pub recover : Bool → RecoveryRequest → Prog σ RecoveryOutcome
  recover target_first request = do
    world.report workspace_cleanup
    transaction ← world.read_update
    elim transaction [
      | inl e ↦ recover_unread e
      | inr t ↦ recover_transaction target_first request t
    ]
