-- ===== src/Gitrepo/Recovery/Environment.antt =====
-- internal/gitrepo/recovery.go: the record that the repository has changed, which a recovery writes
-- when the process died between the swap and the record.
use auto_mas_runtime.Base.{
  ◌⊎◌, inl, inr, Bool, true, false, not, ◌&&◌, Option, none, some, Bytes, codes, bytes_eq, is_empty,
  if◌then◌else◌, [],
}
use auto_mas_runtime.State.Stage.{workspace_swap}
use auto_mas_runtime.Gitrepo.Revision.{Revision}
use auto_mas_runtime.Gitrepo.Failure.{
  Cause, RepoError, make_error, update_state_ambiguous, state_write_failed, internal_error,
  cancelled_error, committed_write_failure, recovery_internal_error, new_committed_error,
}
use auto_mas_runtime.Gitrepo.World.{
  Context, BrokenEnvironment, EnvironmentState, World, Prog, ret, ◌>>=◌, ◌>>◌, is_cancellation,
  map_write_failure,
}
use auto_mas_runtime.Gitrepo.Recovery.{RecoveryResult, RecoveryStep}

pub record RecoveryRequest : Type 0 where
  pub discard_staged : Bool
  pub log_path : Bytes

-- Whether the environment already says that this revision has broken it.
abbrev pub already_broken : EnvironmentState → Revision → Bool
already_broken e identity = e.status_broken && elim e.broken [
  | none ↦ false
  | some b ↦
      b.repository_changed
      && (bytes_eq b.target_version identity.version
          && (bytes_eq b.branch identity.branch && bytes_eq b.commit identity.commit))
]

abbrev repository_changed_record : Revision → Bytes → BrokenEnvironment
repository_changed_record identity log_path = record {
  target_version = identity.version;
  branch = identity.branch;
  commit = identity.commit;
  repository_changed = true;
  stage = workspace_swap;
  log_path = log_path;
}

module _ {σ : Type 0} (world : World σ) where
  -- An environment that cannot be read.
  unfoldable pub environment_failure : Context → Bool → Cause → Prog σ RepoError
  environment_failure ctx committed e = do
    cancelled ← is_cancellation world ctx e
    ret (
        if not cancelled
        then make_error committed update_state_ambiguous workspace_swap
            (some (codes "environment_unreadable"))
        else if committed
        then committed_write_failure workspace_swap
        else cancelled_error workspace_swap)

  -- From the test of the log path on.
  unfoldable pub broken_environment :
      RecoveryRequest → Revision → Bool → Bytes → Prog σ (RepoError ⊎ Option EnvironmentState)
  broken_environment request identity committed last_successful =
      if is_empty request.log_path
      then ret (
          inl (
            if committed
            then new_committed_error internal_error workspace_swap none
            else recovery_internal_error))
      else do
        made ←
            world.new_broken last_successful (repository_changed_record identity request.log_path)
        elim made [
          | inl e ↦ ret (inl (make_error committed state_write_failed workspace_swap none))
          | inr value ↦ ret (inr (some value))
        ]

  -- `prepareEnvironment`: the state to write, when one is.
  unfoldable pub prepare_environment :
      Context → RecoveryRequest → Revision → Bool → Prog σ (RepoError ⊎ Option EnvironmentState)
  prepare_environment ctx request identity committed = do
    world.report workspace_swap
    environment ← world.read_environment ctx
    elim environment [
      | inl e ↦
          if e.not_found
          then broken_environment request identity committed []
          else do failure ← environment_failure ctx committed e; ret (inl failure)
      | inr found ↦
          if already_broken found identity
          then ret (inr none)
          else broken_environment request identity committed found.last_successful
    ]

  -- `applyEnvironment`.
  unfoldable pub apply_environment :
      Context → Bool → Option EnvironmentState → RecoveryResult → Prog σ RecoveryStep
  apply_environment ctx committed none result = ret (result, none)
  apply_environment ctx committed (some value) result = do
    world.report workspace_swap
    written ← world.write_environment ctx value
    elim written [
      | some e ↦
          if committed
          then ret (result, some (committed_write_failure workspace_swap))
          else do failure ← map_write_failure world ctx workspace_swap e; ret (result, some failure)
      | none ↦ ret (record result { environment_written = true }, none)
    ]
