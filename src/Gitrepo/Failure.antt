-- ===== src/Gitrepo/Failure.antt =====
-- internal/gitrepo/errors.go and the error maps of swap.go and recovery.go: what the code asks of an
-- error, and the errors it makes of it. Messages follow from the code and are left out.
use auto_mas_runtime.Base.{Bool, true, false, ◌||◌, Option, none, some, Bytes, if◌then◌else◌}
use auto_mas_runtime.State.Stage.{Stage, workspace_swap, workspace_cleanup}

pub data Code : Type 0 where
  update_state_ambiguous git_repo_swap_failed git_repo_cleanup_failed : Code
  state_write_failed operation_cancelled directory_occupied internal_error : Code
  unsafe_reparse_point path_outside_managed_root : Code
  other_code : Bytes → Code

-- An `*Error` of the package.
pub record RepoError : Type 0 where
  pub code : Code
  pub stage : Stage
  pub reason : Option Bytes
  pub committed : Bool

-- What `errors.Is` and `errors.As` find in an error.
pub record Cause : Type 0 where
  pub not_found : Bool
  pub cancelled : Bool
  pub identity_changed : Bool
  pub unsupported_case : Bool
  pub destination_exists : Bool
  pub permission : Bool
  pub write_error : Bool
  pub coded : Option Code
  pub operation : Option RepoError

abbrev pub plain_cause : Cause
plain_cause = record {
  not_found = false;
  cancelled = false;
  identity_changed = false;
  unsupported_case = false;
  destination_exists = false;
  permission = false;
  write_error = false;
  coded = none;
  operation = none;
}

abbrev pub new_error : Code → Stage → Option Bytes → RepoError
new_error code stage reason = record {
  code = code;
  stage = stage;
  reason = reason;
  committed = false;
}

abbrev pub new_committed_error : Code → Stage → Option Bytes → RepoError
new_committed_error code stage reason = record {
  code = code;
  stage = stage;
  reason = reason;
  committed = true;
}

-- `newCommittedError` or `newError`, as the flag says.
abbrev pub make_error : Bool → Code → Stage → Option Bytes → RepoError
make_error committed code stage reason = record {
  code = code;
  stage = stage;
  reason = reason;
  committed = committed;
}

abbrev pub ambiguous_error : Stage → Bytes → RepoError
ambiguous_error stage reason = new_error update_state_ambiguous stage (some reason)

abbrev pub swap_failure_error : Stage → RepoError
swap_failure_error stage = new_error git_repo_swap_failed stage none

abbrev pub swap_internal_error : RepoError
swap_internal_error = new_error internal_error workspace_swap none

abbrev pub recovery_internal_error : RepoError
recovery_internal_error = new_error internal_error workspace_cleanup none

abbrev pub cancelled_error : Stage → RepoError
cancelled_error stage = new_error operation_cancelled stage none

abbrev unsafe_code : Code → Bool
unsafe_code unsafe_reparse_point = true
unsafe_code path_outside_managed_root = true
unsafe_code _ = false

-- `isAmbiguousFilesystemError`.
abbrev pub is_ambiguous : Cause → Bool
is_ambiguous cause =
    if cause.identity_changed || cause.unsupported_case
    then true
    else elim cause.coded [ none ↦ false | some code ↦ unsafe_code code ]

abbrev pub is_occupied : Cause → Bool
is_occupied cause =
    elim cause.coded [
      | none ↦ false
      | some code ↦ elim code [ directory_occupied ↦ true | _ ↦ false ]
    ]
    || cause.destination_exists

-- `mapCommittedTransactionWriteFailure`.
abbrev pub committed_write_failure : Stage → RepoError
committed_write_failure stage = new_committed_error state_write_failed stage none

-- `mapCommittedEnvironmentFailure`.
abbrev pub committed_environment_failure : Cause → RepoError
committed_environment_failure cause = elim cause.operation [
  | some e ↦ record e { committed = true }
  | none ↦ committed_write_failure workspace_swap
]

-- `mapCommittedCleanupFailure`, and `mapCommittedRetiredCleanupFailure`.
abbrev pub committed_cleanup_failure : RepoError
committed_cleanup_failure = new_committed_error git_repo_cleanup_failed workspace_cleanup none
