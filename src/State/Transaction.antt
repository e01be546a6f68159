-- ===== src/State/Transaction.antt =====
-- internal/state/transaction.go: what a transaction file may say. A time is what the code reads of a
-- `time.Time`. Go visits the map of the two commits in any order: `target_first` says in which.
use auto_mas_runtime.Base.{
  ℕ, Bool, true, false, not, ◌&&◌, ◌||◌, List, [], ◌∷◌, Option, none, some, Bytes, codes, any,
  bytes_eq, is_empty, ◌==◌, if◌then◌else◌,
}
use auto_mas_runtime.State.Stage.{
  Stage, stage_eq, is_known_stage, uv_stage, workspace_stage, workspace_mutation_stage,
  python_stage, dependency_stage, backend_stage, bootstrap, repair, cleanup, workspace_check,
  workspace_clone, workspace_cleanup, dependencies_check, dependencies_sync,
}
use auto_mas_runtime.State.Values.{validate_operation_id, validate_product_version, validate_commit}

pub data TransactionKind : Type 0 where
  backend_kind mutation_kind update_kind : TransactionKind
  other_kind : Bytes → TransactionKind

abbrev pub kind_known : TransactionKind → Bool
kind_known (other_kind s) = false
kind_known backend_kind = true
kind_known mutation_kind = true
kind_known update_kind = true

pub record Timestamp : Type 0 where
  pub is_zero : Bool
  pub marshals : Bool  -- whether `MarshalText` succeeds
  pub instant : ℕ

pub record TransactionState : Type 0 where
  pub schema_version : ℕ
  pub operation_id : Bytes
  pub command : Bytes
  pub pid : ℕ
  pub started_at : Timestamp
  pub target_version : Bytes
  pub stage : Stage
  pub target_commit : Bytes
  pub base_commit : Bytes

pub data Field : Type 0 where
  kind_field schema_field operation_id_field command_field pid_field started_at_field stage_field :
      Field
  target_version_field target_commit_field base_commit_field : Field

abbrev pub one_of : List Bytes → Bytes → Bool
one_of names command = any (λ n. bytes_eq command n) names

abbrev pub mutation_commands : List Bytes
mutation_commands =
    codes "bootstrap"
    ∷ codes "workspace sync"
    ∷ codes "environment ensure"
    ∷ codes "environment repair"
    ∷ codes "dependencies sync"
    ∷ codes "dependencies rebuild"
    ∷ codes "repair"
    ∷ codes "cleanup"
    ∷ []

unfoldable pub transaction_command_allowed : TransactionKind → Bytes → Bool
transaction_command_allowed backend_kind command = bytes_eq command (codes "backend supervise")
transaction_command_allowed mutation_kind command = one_of mutation_commands command
transaction_command_allowed update_kind command =
    bytes_eq command (codes "bootstrap")
    || (bytes_eq command (codes "workspace sync") || bytes_eq command (codes "workspace stage"))
transaction_command_allowed (other_kind s) command = false

unfoldable pub mutation_command_stage_allowed : Bytes → Stage → Bool
mutation_command_stage_allowed command stage =
    if bytes_eq command (codes "bootstrap")
    then stage_eq stage bootstrap
      || (uv_stage stage
          || (workspace_stage stage || (python_stage stage || dependency_stage stage)))
    else if bytes_eq command (codes "workspace sync")
    then workspace_stage stage
    else if bytes_eq command (codes "environment ensure")
    then uv_stage stage
    else if bytes_eq command (codes "environment repair")
    then uv_stage stage || python_stage stage
    else if bytes_eq command (codes "dependencies sync")
    then stage_eq stage dependencies_check || stage_eq stage dependencies_sync
    else if bytes_eq command (codes "dependencies rebuild")
    then dependency_stage stage
    else if bytes_eq command (codes "repair")
    then stage_eq stage repair || (uv_stage stage || (python_stage stage || dependency_stage stage))
    else if bytes_eq command (codes "cleanup")
    then stage_eq stage cleanup || stage_eq stage workspace_cleanup
    else false

unfoldable pub transaction_stage_allowed : TransactionKind → Bytes → Stage → Bool
transaction_stage_allowed backend_kind command stage = backend_stage stage
transaction_stage_allowed update_kind command stage =
    workspace_mutation_stage stage && not (stage_eq stage workspace_check)
transaction_stage_allowed mutation_kind command stage = mutation_command_stage_allowed command stage
transaction_stage_allowed (other_kind s) command stage = false

unfoldable pub transaction_target_required : TransactionKind → Bytes → Bool
transaction_target_required update_kind command = true
transaction_target_required mutation_kind command =
    bytes_eq command (codes "bootstrap") || bytes_eq command (codes "workspace sync")
transaction_target_required backend_kind command = false
transaction_target_required (other_kind s) command = false

abbrev pub is_update : TransactionKind → Bool
is_update update_kind = true
is_update _ = false

-- One round of the loop over the commits.
abbrev pub commit_ok : TransactionKind → Bytes → Bool
commit_ok kind commit = is_empty commit || is_update kind && validate_commit commit

unfoldable pub check_commits : Bool → TransactionKind → TransactionState → Option Field
check_commits true kind value =
    if not (commit_ok kind value.target_commit)
    then some target_commit_field
    else if not (commit_ok kind value.base_commit)
    then some base_commit_field
    else none
check_commits false kind value =
    if not (commit_ok kind value.base_commit)
    then some base_commit_field
    else if not (commit_ok kind value.target_commit)
    then some target_commit_field
    else none

-- What `workspace stage` asks of the commits.
unfoldable pub check_staged : TransactionState → Option Field
check_staged value =
    if bytes_eq value.command (codes "workspace stage")
    then (if is_empty value.base_commit
        then some base_commit_field
        else if not (stage_eq value.stage workspace_clone) && is_empty value.target_commit
        then some target_commit_field
        else none)
    else none

-- From the target version on.
unfoldable pub check_target : Bool → TransactionKind → TransactionState → Option Field
check_target target_first kind value =
    if not (is_empty value.target_version) && not (validate_product_version value.target_version)
    then some target_version_field
    else if transaction_target_required kind value.command && is_empty value.target_version
    then some target_version_field
    else elim (check_commits target_first kind value) [
      | some field ↦ some field
      | none ↦ check_staged value
    ]

-- `ValidateTransaction`: `none` accepts, else the field that is wrong.
unfoldable pub validate_transaction : Bool → TransactionKind → TransactionState → Option Field
validate_transaction target_first kind value =
    if not (kind_known kind)
    then some kind_field
    else if not (value.schema_version == 1)
    then some schema_field
    else if not (validate_operation_id value.operation_id)
    then some operation_id_field
    else if not (transaction_command_allowed kind value.command)
    then some command_field
    else if value.pid == 0
    then some pid_field
    else if value.started_at.is_zero || not value.started_at.marshals
    then some started_at_field
    else if not (is_known_stage value.stage)
        || not (transaction_stage_allowed kind value.command value.stage)
    then some stage_field
    else check_target target_first kind value
