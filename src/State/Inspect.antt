-- ===== src/State/Inspect.antt =====
-- internal/state/inspect.go: whether the command of a transaction file still runs. The probes and the
-- context are functions that take a state and return the next.
pub mod Facts
use auto_mas_runtime.Base.{
  ℕ, ◌≡◌, refl, Bool, true, false, not, ◌&&◌, List, [], ◌∷◌, Option, none, some, Bytes,
  if◌then◌else◌, is_none,
}
use auto_mas_runtime.State.Transaction.{
  TransactionKind, backend_kind, mutation_kind, update_kind, other_kind, kind_known,
  TransactionState, Field, kind_field, validate_transaction,
}

pub data Activity : Type 0 where
  active stale inconsistent unknown : Activity

pub data MutexKind : Type 0 where
  mutex_backend mutex_mutation : MutexKind

pub data ProbeError : Type 0 where
  invalid_field : Field → ProbeError
  probe_error : Bytes → ProbeError

pub record Inspection : Type 0 where
  pub activity : Activity
  pub mutex_held : Bool
  pub mutex_recovered : Bool
  pub pid_checked : Bool
  pub pid_alive : Bool
  pub error : Option ProbeError

pub record MutexProbeResult : Type 0 where
  pub held : Bool
  pub recovered : Bool

pub record Probes (σ : Type 0) : Type 0 where
  pub ctx_err : σ → Option Bytes × σ
  pub mutex_probe : MutexKind → σ → (MutexProbeResult × Option Bytes) × σ
  pub pid_alive : ℕ → σ → (Bool × Option Bytes) × σ

-- `transactionMutexKind`.
abbrev pub transaction_mutex_kind : TransactionKind → Option MutexKind
transaction_mutex_kind backend_kind = some mutex_backend
transaction_mutex_kind mutation_kind = some mutex_mutation
transaction_mutex_kind update_kind = some mutex_mutation
transaction_mutex_kind (other_kind s) = none

abbrev pub unknown_inspection : Inspection
unknown_inspection = record {
  activity = unknown;
  mutex_held = false;
  mutex_recovered = false;
  pid_checked = false;
  pid_alive = false;
  error = none;
}

abbrev pub fails : Inspection → ProbeError → Inspection
fails i e = record i { error = some e }

module _ {σ : Type 0} (probes : Probes σ) where
  -- The probe of the process, once the mutex is known to be free.
  unfoldable pub inspect_pid : TransactionState → Inspection → σ → Inspection × σ
  inspect_pid value i w =
      let (result, w1) = probes.pid_alive value.pid w in
      let (alive, pid_err) = result in
      let checked = record i { pid_checked = true; pid_alive = alive && is_none pid_err } in
      elim pid_err [
        | some e ↦ (fails checked (probe_error e), w1)
        | none ↦
            let (ctx_err, w2) = probes.ctx_err w1 in
            elim ctx_err [
              | some e ↦ (fails (record checked { pid_alive = false }) (probe_error e), w2)
              | none ↦ (
                if alive
                    then record checked { activity = inconsistent }
                    else record checked { activity = stale },
                w2,
              )
            ]
      ]

  -- From the probe of the mutex on.
  unfoldable pub inspect_mutex : MutexKind → TransactionState → σ → Inspection × σ
  inspect_mutex mutex value w =
      let (result, w1) = probes.mutex_probe mutex w in
      let (found, mutex_err) = result in
      let i = record unknown_inspection {
        mutex_held = found.held;
        mutex_recovered = found.recovered;
      } in
      elim mutex_err [
        | some e ↦ (fails i (probe_error e), w1)
        | none ↦
            if found.held
            then (record i { activity = active }, w1)
            else let (ctx_err, w2) = probes.ctx_err w1 in
              elim ctx_err [
                | some e ↦ (fails i (probe_error e), w2)
                | none ↦ inspect_pid value i w2
              ]
      ]

  -- `InspectTransaction`, with a context and probes that are not nil.
  unfoldable pub inspect_transaction :
      Bool → TransactionKind → TransactionState → σ → Inspection × σ
  inspect_transaction target_first kind value w =
      if not (kind_known kind)
      then (fails unknown_inspection (invalid_field kind_field), w)
      else elim (validate_transaction target_first kind value) [
        | some field ↦ (fails unknown_inspection (invalid_field field), w)
        | none ↦
            let (ctx_err, w1) = probes.ctx_err w in
            elim ctx_err [
              | some e ↦ (fails unknown_inspection (probe_error e), w1)
              | none ↦ elim (transaction_mutex_kind kind) [
                | none ↦ (fails unknown_inspection (invalid_field kind_field), w1)
                | some mutex ↦ inspect_mutex mutex value w1
              ]
            ]
      ]

-- `CanAutoClean`.
abbrev pub can_auto_clean : Inspection → Bool
can_auto_clean i = elim i.activity [ stale ↦ true | _ ↦ false ]
