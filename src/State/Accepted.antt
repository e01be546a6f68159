-- ===== src/State/Accepted.antt =====
-- internal/state/transaction.go: which files of an update are accepted.
use auto_mas_runtime.Base.{
  ◌≡◌, ◌↔◌, refl, Bool, true, false, not, ◌&&◌, ◌||◌, [], ◌∷◌, none, Bytes, codes, bytes_eq,
  is_empty, ◌==◌, arith, Bool-cases, inl, inr,
}
use auto_mas_runtime.State.Stage.{
  Stage, stage_eq, workspace_mutation_stage, workspace_clone, workspace_check, is_known_stage,
}
use auto_mas_runtime.State.Values.{validate_operation_id, validate_product_version, validate_commit}
use auto_mas_runtime.State.Transaction.{
  update_kind, TransactionState, one_of, transaction_command_allowed, transaction_stage_allowed,
  transaction_target_required, check_commits, check_staged, check_target, validate_transaction,
}

-- A staged update has a base commit, and a target commit unless it is still cloning.
abbrev pub staged_commits : TransactionState → Bool
staged_commits value =
    not (bytes_eq value.command (codes "workspace stage"))
    || not (is_empty value.base_commit)
      && (stage_eq value.stage workspace_clone || not (is_empty value.target_commit))

-- The two commits are valid where they are there.
abbrev pub commits_of_update : TransactionState → Bool
commits_of_update value =
    (is_empty value.target_commit || validate_commit value.target_commit)
    && ((is_empty value.base_commit || validate_commit value.base_commit) && staged_commits value)

-- The description of the file of an update, whose conditions have no order.
abbrev pub describes_update : TransactionState → Bool
describes_update value =
    value.schema_version == 1
    && (validate_operation_id value.operation_id
        && (one_of (codes "bootstrap" ∷ codes "workspace sync" ∷ codes "workspace stage" ∷ [])
              value.command
            && (workspace_mutation_stage value.stage
                && (not (value.pid == 0)
                    && (not value.started_at.is_zero
                        && (value.started_at.marshals
                            && (validate_product_version value.target_version
                                && commits_of_update value)))))))

version-nonempty : (v : Bytes) → validate_product_version v ≡ true → is_empty v ≡ false
unfolding validate_product_version
version-nonempty [] h = absurd (ground arith)
version-nonempty (c ∷ v) h = refl

mutation_known :
    (s : Stage)
    → workspace_mutation_stage s ≡ true
    → (is_known_stage s ≡ true) × (stage_eq s workspace_check ≡ false)
unfolding workspace_mutation_stage is_known_stage stage_eq
mutation_known s h = (ground arith, ground arith)

commits_iff :
    (target_first : Bool) (value : TransactionState)
    → validate_product_version value.target_version ≡ true
    → (check_target target_first update_kind value ≡ none) ↔ (commits_of_update value ≡ true)
unfolding check_target check_commits check_staged transaction_target_required
commits_iff true value v =
    let e = version-nonempty value.target_version v in (λ h. ground arith, λ h. ground arith)
commits_iff false value v =
    let e = version-nonempty value.target_version v in (λ h. ground arith, λ h. ground arith)

version_required :
    (target_first : Bool) (value : TransactionState)
    → check_target target_first update_kind value ≡ none
    → validate_product_version value.target_version ≡ true
unfolding check_target transaction_target_required
version_required target_first value h = ground arith

-- In either order of the commits, the file of an update is accepted exactly when it meets the
-- description: schema 1, a valid operation, a command that updates, a stage of a workspace mutation,
-- a process, a time that can be written, a valid target version, commits that are valid where they
-- are there, and for a staged update a base commit, with a target commit unless it is still cloning.
pub accepted_update :
    (target_first : Bool) (value : TransactionState)
    → (validate_transaction target_first update_kind value ≡ none) ↔ (describes_update value ≡ true)
unfolding validate_transaction transaction_command_allowed transaction_stage_allowed
accepted_update target_first value =
    elim (Bool-cases (validate_product_version value.target_version)) [
      | inl v ↦
          let commits = commits_iff target_first value v in
          elim (Bool-cases (commits_of_update value)) [
            | inl c ↦
                let t = commits.1 c in
                (
                  λ h. ground arith,
                  λ h.
                      let known = mutation_known value.stage (ground arith) in
                      ground (arith, known.0, known.1, t),
                )
            | inr c ↦ (
              λ h. absurd (let t = commits.0 (ground arith) in ground arith),
              λ h. absurd (ground arith),
            )
          ]
      | inr v ↦ (
        λ h. absurd (let t = version_required target_first value (ground arith) in ground arith),
        λ h. absurd (ground arith),
      )
    ]
