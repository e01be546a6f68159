-- ===== src/State/Tests.antt =====
-- A staged update, its file and its probes.
use auto_mas_runtime.Base.{
  ◌↔◌, ℕ, ◌≡◌, refl, true, false, ◌&&◌, none, some, Bytes, codes, bytes_eq, length, ltb,
}
use auto_mas_runtime.Base.Strings.{after_prefix, cut, has_suffix, has_prefix}
use auto_mas_runtime.Protocol.OperationId.{valid_operation_id}
use auto_mas_runtime.Mirror.Target.{valid_version_value}
use auto_mas_runtime.Mirror.Report.{valid_git_commit}
use auto_mas_runtime.State.Stage.{
  stage_eq, is_known_stage, workspace_mutation_stage, workspace_verify,
}
use auto_mas_runtime.State.Values.{
  in_alphabet, validate_operation_id, validate_product_version, validate_commit,
  validate_tool_version,
}
use auto_mas_runtime.State.Transaction.{
  update_kind, TransactionState, validate_transaction, transaction_command_allowed,
  transaction_stage_allowed, transaction_target_required, check_commits, check_staged, check_target,
}
use auto_mas_runtime.State.Inspect.{
  MutexKind, Probes, transaction_mutex_kind, inspect_pid, inspect_mutex, inspect_transaction,
}
use auto_mas_runtime.State.Inspect.Facts.{stale_only_when_dead}
use auto_mas_runtime.State.Agree.{validators_agree}
use auto_mas_runtime.State.Accepted.{describes_update, accepted_update}

abbrev digest : Bytes
digest = codes "0123456789abcdef0123456789abcdef01234567"

abbrev pub staged : TransactionState
staged = record {
  schema_version = 1;
  operation_id = codes "01JD8X8X8X8X8X8X8X8X8X8X8X";
  command = codes "workspace stage";
  pid = 7;
  started_at = record { is_zero = false; marshals = true; instant = 5 };
  target_version = codes "v1.2";
  stage = workspace_verify;
  target_commit = digest;
  base_commit = digest;
}

pub staged_accepted : validate_transaction true update_kind staged ≡ none
unfolding validate_transaction transaction_command_allowed transaction_stage_allowed
    transaction_target_required check_target check_commits check_staged is_known_stage stage_eq
    workspace_mutation_stage validate_operation_id in_alphabet validate_product_version
    validate_commit bytes_eq after_prefix cut has_suffix
staged_accepted = refl

accepted_update_example :
    (validate_transaction true update_kind staged ≡ none) ↔ (describes_update staged ≡ true)
accepted_update_example = accepted_update true staged

validators_agree_example :
    (validate_operation_id digest ≡ valid_operation_id digest)
    × (validate_commit digest ≡ valid_git_commit digest)
    × (validate_tool_version digest ≡ valid_version_value digest)
    × (validate_product_version digest
        ≡ (valid_version_value digest && (has_prefix (codes "v") digest && ltb 1 (length digest))))
validators_agree_example = validators_agree digest

-- The mutex is free and the process is gone.
abbrev quiet : Probes ℕ
quiet = record {
  ctx_err = λ w. (none, w);
  mutex_probe = λ k w. ((record { held = false; recovered = false }, none), w);
  pid_alive = λ p w. ((false, none), w);
}

staged_is_stale : (inspect_transaction quiet true update_kind staged 0).0.pid_checked ≡ true
unfolding inspect_transaction inspect_mutex inspect_pid validate_transaction
    transaction_command_allowed transaction_stage_allowed transaction_target_required check_target
    check_commits check_staged is_known_stage stage_eq workspace_mutation_stage
    validate_operation_id in_alphabet validate_product_version validate_commit bytes_eq after_prefix
    cut has_suffix
staged_is_stale = refl

stale_only_when_dead_example :
    (validate_transaction true update_kind staged ≡ none)
    × ((mutex : MutexKind) × (before : ℕ) × (between : ℕ) × (transaction_mutex_kind update_kind
          ≡ some mutex)
        × (quiet.ctx_err 0 ≡ (none, before))
        × ((quiet.mutex_probe mutex before).0.0.held ≡ false)
        × ((quiet.mutex_probe mutex before).0.1 ≡ none)
        × (quiet.ctx_err (quiet.mutex_probe mutex before).1 ≡ (none, between))
        × ((quiet.pid_alive staged.pid between).0 ≡ (false, none))
        × ((quiet.ctx_err (quiet.pid_alive staged.pid between).1).0 ≡ none))
unfolding inspect_transaction inspect_mutex inspect_pid validate_transaction
    transaction_command_allowed transaction_stage_allowed transaction_target_required check_target
    check_commits check_staged is_known_stage stage_eq workspace_mutation_stage
    validate_operation_id in_alphabet validate_product_version validate_commit bytes_eq after_prefix
    cut has_suffix
stale_only_when_dead_example = stale_only_when_dead quiet true update_kind staged 0 refl
