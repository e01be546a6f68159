-- ===== src/Gitrepo/Recovery.antt =====
-- internal/gitrepo/recovery.go: how a recovery sees a path, and what the result of a recovery is. The recovery, its
-- dependencies and the context are not nil.
pub mod Step
pub mod Environment
pub mod Paths
pub mod Shapes
pub mod Whole
pub mod Seen
pub mod Moves
pub mod Stepwise
pub mod Ends
pub mod Cases
pub mod Choice
pub mod Safe
use auto_mas_runtime.Base.{
  ℕ, ◌≡◌, ◌⊎◌, inl, inr, Bool, true, false, not, ◌&&◌, ◌||◌, List, [], ◌∷◌, Option, none, some,
  Bytes, codes, ◌==◌, bytes_eq, if◌then◌else◌,
}
use auto_mas_runtime.State.Stage.{Stage, workspace_swap, workspace_cleanup}
use auto_mas_runtime.State.Transaction.{TransactionState}
use auto_mas_runtime.Mirror.Source.{Source}
use auto_mas_runtime.Gitrepo.Revision.{Revision, Snapshot, identity_of_snapshot}
use auto_mas_runtime.Gitrepo.Failure.{
  Cause, plain_cause, RepoError, Code, new_error, is_ambiguous, ambiguous_error, swap_failure_error,
  cancelled_error, committed_write_failure, committed_cleanup_failure, git_repo_cleanup_failed,
}
use auto_mas_runtime.Gitrepo.Disk.{Slot}
use auto_mas_runtime.Gitrepo.World.{
  Context, caller_context, DirectoryInspection, RenameRequest, RenameKind,
  rename_update_to_repository, DeleteRequest, clean, World, Prog, ret, ◌>>=◌, ◌>>◌, is_cancellation,
  map_rename_failure, map_write_failure,
}

-- A `recoveryPath`: its kind, with the identities that the kind has.
pub data RecoveryPath : Type 0 where
  missing_path : RecoveryPath
  incomplete_path : ℕ → RecoveryPath
  valid_path : Revision → ℕ → RecoveryPath

pub record PathPolicy : Type 0 where
  pub allow_unreadable : Bool
  pub allow_invalid_identity : Bool

pub record RecoveryResult : Type 0 where
  pub recovered : Bool
  pub mutation_applied : Bool
  pub environment_written : Bool
  pub transaction_removed : Bool
  pub revision : Revision

-- A result with the errors that go with it; two when they are joined.
abbrev pub RecoveryOutcome : Type 0
RecoveryOutcome = RecoveryResult × List RepoError

abbrev pub RecoveryStep : Type 0
RecoveryStep = RecoveryResult × Option RepoError

abbrev pub empty_revision : Revision
empty_revision = record { version = []; branch = []; commit = []; source_key = [] }

-- `recoveryResultWithIdentity`.
abbrev pub result_with_identity : Revision → Bool → RecoveryResult
result_with_identity identity mutation_applied = record {
  recovered = false;
  mutation_applied = mutation_applied;
  environment_written = false;
  transaction_removed = false;
  revision = identity;
}

abbrev pub no_recovery : RecoveryResult
no_recovery = result_with_identity empty_revision false

-- `repositoryIdentity.sameRevision`.
unfoldable pub same_revision : Revision → Revision → Bool
same_revision a b =
    bytes_eq a.version b.version && (bytes_eq a.branch b.branch && bytes_eq a.commit b.commit)

-- `recoveryPath.isTarget`.
unfoldable pub is_target : Bytes → RecoveryPath → Bool
is_target version missing_path = false
is_target version (incomplete_path id) = false
is_target version (valid_path r id) = bytes_eq r.version version

abbrev either_code : Option Code → Option Code → Option Code
either_code (some c) d = some c
either_code none d = d

-- `errors.Join` with the error of a close.
unfoldable pub join_close : Cause → Option Cause → Cause
join_close a none = a
join_close a (some b) = record {
  not_found = a.not_found || b.not_found;
  cancelled = a.cancelled || b.cancelled;
  identity_changed = a.identity_changed || b.identity_changed;
  unsupported_case = a.unsupported_case || b.unsupported_case;
  destination_exists = a.destination_exists || b.destination_exists;
  permission = a.permission || b.permission;
  write_error = a.write_error || b.write_error;
  coded = either_code a.coded b.coded;
  operation = elim a.operation [ some e ↦ some e | none ↦ b.operation ];
}

module _ {σ : Type 0} (world : World σ) (git_sources : List Source)
    (parse_version : Bytes → Option Bytes) where
  -- What is read of a directory that is pinned.
  unfoldable pub classify_read : PathPolicy → ℕ → Cause ⊎ Snapshot → Prog σ (Cause ⊎ RecoveryPath)
  classify_read policy id (inl e) = if not policy.allow_unreadable then ret (inl e) else do
    cancelled ← is_cancellation world caller_context e
    ret (if not cancelled && not e.permission then inr (incomplete_path id) else inl e)
  classify_read policy id (inr snapshot) =
      elim (identity_of_snapshot git_sources parse_version snapshot) [
        | some identity ↦ ret (inr (valid_path identity id))
        | none ↦
            ret
              (if policy.allow_invalid_identity then inr (incomplete_path id) else inl plain_cause)
      ]

  unfoldable pub classify_pinned : PathPolicy → Slot → ℕ → Prog σ (Cause ⊎ RecoveryPath)
  classify_pinned policy slot id = do
    content ← world.read slot
    closed ← world.close slot
    elim closed [
      | some e ↦ ret (inl (elim content [ inl r ↦ join_close r (some e) | inr snapshot ↦ e ]))
      | none ↦ classify_read policy id content
    ]

  -- The lease of a directory that was inspected with an identity.
  unfoldable pub classify_lease : PathPolicy → Slot → ℕ → Prog σ (Cause ⊎ RecoveryPath)
  classify_lease policy slot inspected = do
    pinned ← world.pin slot
    elim pinned [
      | inl e ↦ ret (inl e)
      | inr lease ↦ elim lease [
        | none ↦ ret (inl plain_cause)
        | some identity ↦ elim identity [
          | none ↦ do closed ← world.close slot; ret (inl (join_close plain_cause closed))
          | some id ↦ if inspected == id then classify_pinned policy slot id else do
            closed ← world.close slot
            ret (inl (join_close (record plain_cause { identity_changed = true }) closed))
        ]
      ]
    ]

  unfoldable pub classify_inspected :
      PathPolicy → Slot → Cause ⊎ DirectoryInspection → Prog σ (Cause ⊎ RecoveryPath)
  classify_inspected policy slot (inl e) = ret (inl e)
  classify_inspected policy slot (inr i) =
      if not i.exists then ret (inr missing_path) else elim i.identity [
        | some id ↦ classify_lease policy slot id
        | none ↦ ret (inl plain_cause)
      ]

  unfoldable pub classify_started : Bool → Slot → PathPolicy → Prog σ (Cause ⊎ RecoveryPath)
  classify_started true slot policy = ret (inl (record plain_cause { cancelled = true }))
  classify_started false slot policy = do
    inspection ← world.inspect caller_context slot
    classify_inspected policy slot inspection

  -- `classifyPath`.
  unfoldable pub classify_path : Slot → PathPolicy → Prog σ (Cause ⊎ RecoveryPath)
  classify_path slot policy = do
    stopped ← world.ctx_err caller_context
    classify_started stopped slot policy
