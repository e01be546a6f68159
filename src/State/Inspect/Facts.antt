-- ===== src/State/Inspect/Facts.antt =====
-- What an inspection has seen before it calls a transaction stale.
use auto_mas_runtime.Base.{
  ◌≡◌, refl, Bool, true, false, none, some, arith, Option-cases, Bool-cases, inl, inr,
}
use auto_mas_runtime.State.Transaction.{
  TransactionKind, kind_known, TransactionState, validate_transaction,
}
use auto_mas_runtime.State.Inspect.{
  MutexKind, Inspection, Probes, transaction_mutex_kind, inspect_pid, inspect_mutex,
  inspect_transaction, can_auto_clean, unknown_inspection,
}

module _ {σ : Type 0} (probes : Probes σ) where
  pid_facts :
      (value : TransactionState) (i : Inspection) (w : σ)
      → can_auto_clean i ≡ false
      → can_auto_clean (inspect_pid probes value i w).0 ≡ true
      → ((probes.pid_alive value.pid w).0 ≡ (false, none))
        × ((probes.ctx_err (probes.pid_alive value.pid w).1).0 ≡ none)
  unfolding inspect_pid
  pid_facts value i w u h = elim (Option-cases (probes.pid_alive value.pid w).0.1) [
    | inr (e, f) ↦ absurd (ground (arith, h, u))
    | inl f ↦ elim (Option-cases (probes.ctx_err (probes.pid_alive value.pid w).1).0) [
      | inr (e, g) ↦ absurd (ground (arith, h, u))
      | inl g ↦ elim (Bool-cases (probes.pid_alive value.pid w).0.0) [
        | inl a ↦ absurd (ground (arith, h, u))
        | inr a ↦ (cc, g)
      ]
    ]
  ]

  mutex_facts :
      (mutex : MutexKind) (value : TransactionState) (w : σ)
      → can_auto_clean (inspect_mutex probes mutex value w).0 ≡ true
      → ((probes.mutex_probe mutex w).0.0.held ≡ false)
        × ((probes.mutex_probe mutex w).0.1 ≡ none)
        × ((probes.pid_alive value.pid (probes.ctx_err (probes.mutex_probe mutex w).1).1).0
            ≡ (false, none))
        × ((probes.ctx_err
              (probes.pid_alive value.pid (probes.ctx_err (probes.mutex_probe mutex w).1).1).1).0
            ≡ none)
        × ((probes.ctx_err (probes.mutex_probe mutex w).1).0 ≡ none)
  unfolding inspect_mutex
  mutex_facts mutex value w h = elim (Option-cases (probes.mutex_probe mutex w).0.1) [
    | inr (e, f) ↦ absurd (ground (arith, h))
    | inl f ↦ elim (Bool-cases (probes.mutex_probe mutex w).0.0.held) [
      | inl a ↦ absurd (ground (arith, h))
      | inr a ↦ elim (Option-cases (probes.ctx_err (probes.mutex_probe mutex w).1).0) [
        | inr (e, g) ↦ absurd (ground (arith, h))
        | inl g ↦
            let facts =
              pid_facts value
                (record unknown_inspection {
                  mutex_held = (probes.mutex_probe mutex w).0.0.held;
                  mutex_recovered = (probes.mutex_probe mutex w).0.0.recovered;
                })
                (probes.ctx_err (probes.mutex_probe mutex w).1).1 refl (ground (arith, h)) in
            (a, f, facts.0, facts.1, g)
      ]
    ]
  ]

module _ {σ : Type 0} (probes : Probes σ) (target_first : Bool) where
  -- A transaction is called stale only when it is valid and an inspection from the start state finds, in
  -- this order: the context alive, the mutex probed without an error and free, the context alive, the
  -- process probed without an error and dead, the context alive. `before` is the state after the first
  -- check, in which the mutex is probed, and `between` the one after the second, in which the process
  -- is probed.
  pub stale_only_when_dead :
      (kind : TransactionKind) (value : TransactionState) (w : σ)
      → can_auto_clean (inspect_transaction probes target_first kind value w).0 ≡ true
      → (validate_transaction target_first kind value ≡ none)
        × ((mutex : MutexKind) × (before : σ) × (between : σ) × (transaction_mutex_kind kind
              ≡ some mutex)
            × (probes.ctx_err w ≡ (none, before))
            × ((probes.mutex_probe mutex before).0.0.held ≡ false)
            × ((probes.mutex_probe mutex before).0.1 ≡ none)
            × (probes.ctx_err (probes.mutex_probe mutex before).1 ≡ (none, between))
            × ((probes.pid_alive value.pid between).0 ≡ (false, none))
            × ((probes.ctx_err (probes.pid_alive value.pid between).1).0 ≡ none))
  unfolding inspect_transaction
  stale_only_when_dead kind value w h = elim (Bool-cases (kind_known kind)) [
    | inr e ↦ absurd (ground (arith, h))
    | inl e ↦ elim (Option-cases (validate_transaction target_first kind value)) [
      | inr (field, f) ↦ absurd (ground (arith, h))
      | inl f ↦ elim (Option-cases (probes.ctx_err w).0) [
        | inr (err, g) ↦ absurd (ground (arith, h))
        | inl g ↦ elim (Option-cases (transaction_mutex_kind kind)) [
          | inl m ↦ absurd (ground (arith, h))
          | inr (mutex, m) ↦
              let w1 = (probes.ctx_err w).1 in
              let facts = mutex_facts probes mutex value w1 (ground (arith, h)) in
              (
                f,
                (
                  mutex,
                  w1,
                  (probes.ctx_err (probes.mutex_probe mutex w1).1).1,
                  m,
                  cc g,
                  facts.0,
                  facts.1,
                  cc facts.4,
                  facts.2,
                  facts.3,
                ),
              )
        ]
      ]
    ]
  ]
