-- ===== src/Gitrepo/World.antt =====
-- internal/gitrepo: what the code calls while it replaces or recovers a repository. The file system,
-- the store and the reader are functions that take a state and return the next, with the contexts of
-- the code: the caller's, and the one without cancellation that the code makes after the swap.
pub mod Rules
pub mod Calls
use auto_mas_runtime.Base.{
  ℕ, ◌≡◌, ◌⊎◌, inl, inr, Bool, true, false, not, ◌&&◌, ◌||◌, Option, none, some, Bytes, codes,
  if◌then◌else◌,
}
use auto_mas_runtime.State.Stage.{Stage, workspace_swap}
use auto_mas_runtime.State.Transaction.{TransactionState}
use auto_mas_runtime.Gitrepo.Revision.{Snapshot, Revision}
use auto_mas_runtime.Gitrepo.Failure.{
  Cause, RepoError, new_error, new_committed_error, git_repo_swap_failed, update_state_ambiguous,
  operation_cancelled, directory_occupied, state_write_failed, is_ambiguous, is_occupied,
  swap_failure_error, ambiguous_error, cancelled_error,
}
use auto_mas_runtime.Gitrepo.Disk.{Slot}

infixl 1 ◌>>=◌ ◌>>◌
pub data Context : Type 0 where
  caller_context committed_context : Context

pub record DirectoryInspection : Type 0 where
  pub exists : Bool
  pub identity : Option ℕ

pub data RenameKind : Type 0 where
  rename_repository_to_retired rename_update_to_repository rename_repository_rollback : RenameKind

pub record RenameRequest : Type 0 where
  pub kind : RenameKind
  pub source : Slot
  pub destination : Slot
  pub expected : ℕ

pub data DeleteKind : Type 0 where
  delete_repository_update delete_repository_retired : DeleteKind

pub record DeleteRequest : Type 0 where
  pub kind : DeleteKind
  pub target : Slot
  pub expected : ℕ

pub record DeleteResult : Type 0 where
  pub removed : Bool
  pub partial : Bool
  pub audit_completed : Bool

-- A removal without an error, complete and audited.
abbrev pub clean : DeleteResult × Option Cause → Bool
clean r = elim r.1 [ some e ↦ false | none ↦ not r.0.partial && r.0.audit_completed ]

pub record BrokenEnvironment : Type 0 where
  pub target_version : Bytes
  pub branch : Bytes
  pub commit : Bytes
  pub repository_changed : Bool
  pub stage : Stage
  pub log_path : Bytes

-- Of an environment document the code reads these. A stable revision is kept as it is.
pub record EnvironmentState : Type 0 where
  pub last_successful : Bytes
  pub status_broken : Bool
  pub broken : Option BrokenEnvironment

abbrev pub Prog : Type 0 → Type 0 → Type 0
Prog σ A = σ → A × σ

unfoldable pub ret : {σ A : Type 0} → A → Prog σ A
ret a w = (a, w)

unfoldable pub ◌>>=◌ : {σ A B : Type 0} → Prog σ A → (A → Prog σ B) → Prog σ B
◌>>=◌ m k w = k (m w).0 (m w).1

unfoldable pub ◌>>◌ : {σ A B : Type 0} → Prog σ A → Prog σ B → Prog σ B
◌>>◌ m k w = k (m w).1

-- A lease that `pin` gives may be nil, and its identity too. An environment that is read is missing
-- when the cause says so.
pub record World (σ : Type 0) : Type 0 where
  pub paths_ok : Bytes → Bool
  pub report : Stage → Prog σ Bool
  pub ctx_err : Context → Prog σ Bool
  pub inspect : Context → Slot → Prog σ (Cause ⊎ DirectoryInspection)
  pub pin : Slot → Prog σ (Cause ⊎ Option (Option ℕ))
  pub read : Slot → Prog σ (Cause ⊎ Snapshot)
  pub close : Slot → Prog σ (Option Cause)
  pub rename : Context → RenameRequest → Prog σ (Bool × Option Cause)
  pub remove : Context → DeleteRequest → Prog σ (DeleteResult × Option Cause)
  pub read_update : Prog σ (Cause ⊎ TransactionState)
  pub remove_transaction : Context → TransactionState → Prog σ (Option Cause)
  pub write_transaction : Context → TransactionState → Prog σ (Option Cause)
  pub read_environment : Context → Prog σ (Cause ⊎ EnvironmentState)
  pub new_broken : Bytes → BrokenEnvironment → Prog σ (Cause ⊎ EnvironmentState)
  pub write_environment : Context → EnvironmentState → Prog σ (Option Cause)
  pub commit_environment : Revision → Prog σ (Option Cause)

module _ {σ : Type 0} (world : World σ) where
  -- `isCancellation`.
  unfoldable pub is_cancellation : Context → Cause → Prog σ Bool
  is_cancellation ctx cause = do stopped ← world.ctx_err ctx; ret (stopped || cause.cancelled)

  -- `mapRenameFailure`.
  unfoldable pub map_rename_failure : Context → Cause → Bool → Bool → Prog σ RepoError
  map_rename_failure ctx cause mutation_applied committed =
      if committed
      then ret (new_committed_error git_repo_swap_failed workspace_swap none)
      else if mutation_applied
      then ret (
          if is_ambiguous cause
          then ambiguous_error workspace_swap (codes "directory_identity_changed")
          else swap_failure_error workspace_swap)
      else do
        cancelled ← is_cancellation ctx cause
        ret (
            if cancelled
            then cancelled_error workspace_swap
            else if is_ambiguous cause
            then ambiguous_error workspace_swap (codes "directory_identity_changed")
            else if is_occupied cause
            then new_error directory_occupied workspace_swap none
            else swap_failure_error workspace_swap)

  -- `mapTransactionWriteFailure`.
  unfoldable pub map_write_failure : Context → Stage → Cause → Prog σ RepoError
  map_write_failure ctx stage cause =
      if cause.write_error then ret (new_error state_write_failed stage none) else do
        cancelled ← is_cancellation ctx cause
        ret (if cancelled then cancelled_error stage else new_error state_write_failed stage none)
