-- ===== src/Protocol/Emitter/Session.antt =====
-- internal/protocol/emitter.go: `NewEmitter`, which reserves the output and sends `hello`, and the
-- `EmitX` methods as the calls of one operation.
use auto_mas_runtime.Base.{
  Bool, true, false, List, [], ◌∷◌, Option, none, some, Bytes, codes, any, bytes_eq, if◌then◌else◌,
  or_else, ◌≡◌, ◌⊎◌, inl, inr, refl,
}
use auto_mas_runtime.Base.Int.{ℤ}
use auto_mas_runtime.Protocol.Event.{
  Details, WarningSummary, ProgressEvent, ErrorEvent, ResultEvent, hello, progress, state, log,
  error,
}
use auto_mas_runtime.Protocol.OperationId.{id, failed, valid_operation_id, new_operation_id}
use auto_mas_runtime.Protocol.Emitter.{
  Outside, ProcessOutput, EmitError, emitter_exists, nil_option, invalid_operation_id, nil_clock,
  unknown_capability, no_operation_id, emit, emit_warning, emit_result,
}

abbrev pub known_capabilities : List Bytes
known_capabilities =
    codes "stdin.cancel"
    ∷ codes "state.v1"
    ∷ codes "log.stream"
    ∷ codes "stdin.shutdown"
    ∷ codes "stdin.status"
    ∷ []

unfoldable pub is_known_capability : Bytes → Bool
is_known_capability value = any (λ c. bytes_eq c value) known_capabilities

-- An `Option` value: nil, `WithOperationID`, or `WithClock` of a clock that is there or not.
pub data EmitterOption : Type 0 where
  absent : EmitterOption
  with_operation_id : Bytes → EmitterOption
  with_clock : Bool → EmitterOption

pub data Either {ℓ} (A : Type ℓ) : Type ℓ where
  ok : A → Either A
  err : EmitError → Either A

pub Either-cases {ℓ} :
    {A : Type ℓ} (x : Either A) → ((e : EmitError) × (x ≡ err e)) ⊎ ((a : A) × (x ≡ ok a))
Either-cases (ok a) = inr (a, refl)
Either-cases (err e) = inl (e, refl)

-- The loop over the options; the setting that later code reads is the operation id.
unfoldable pub apply_options : Bytes → List EmitterOption → Either Bytes
apply_options operation_id [] = ok operation_id
apply_options operation_id (absent ∷ rest) = err nil_option
apply_options operation_id (with_operation_id value ∷ rest) =
    let next = apply_options value rest in
    if valid_operation_id value then next else err invalid_operation_id
apply_options operation_id (with_clock true ∷ rest) = apply_options operation_id rest
apply_options operation_id (with_clock false ∷ rest) = err nil_clock

-- The first capability that is not known.
unfoldable pub check_capabilities : List Bytes → Option EmitError
check_capabilities [] = none
check_capabilities (c ∷ cs) =
    if is_known_capability c then check_capabilities cs else some (unknown_capability c)

is_empty : Bytes → Bool
is_empty [] = true
is_empty (x ∷ xs) = false

-- An id of the options, or a new one.
unfoldable pub choose_id : Bytes → ℤ → Option Bytes → Either Bytes
unfolding is_empty
choose_id operation_id milliseconds random =
    if is_empty operation_id
    then elim (new_operation_id milliseconds random) [
      | id value ↦ ok value
      | failed e ↦ err (no_operation_id e)
    ]
    else ok operation_id

-- A copy of an empty slice is nil.
abbrev pub nil_if_empty : List Bytes → Option (List Bytes)
nil_if_empty [] = none
nil_if_empty (c ∷ cs) = some (c ∷ cs)

module _ {R : Type 0} (env : Outside R) where
  -- The reservation, and `hello`.
  unfoldable pub reserve :
      Bytes → Bytes → List Bytes → Bytes → Bytes → ProcessOutput R → ProcessOutput R × Either Bytes
  reserve runtime_version command capabilities operation_id now o =
      if o.emitter_created
      then (o, err emitter_exists)
      else let (o', e) =
          emit env operation_id now (hello runtime_version command (nil_if_empty capabilities))
            (record o { emitter_created = true }) in
        (o', or_else (ok operation_id) (λ x. err x) e)

  -- `NewEmitter`; the emitter is its operation id.
  unfoldable pub new_emitter :
      Bytes
      → Bytes
      → List Bytes
      → List EmitterOption
      → ℤ
      → Option Bytes
      → Bytes
      → ProcessOutput R
      → ProcessOutput R × Either Bytes
  new_emitter runtime_version command capabilities options milliseconds random now o =
      elim (apply_options [] options) [
        | err e ↦ (o, err e)
        | ok operation_id ↦ elim (check_capabilities capabilities) [
          | some e ↦ (o, err e)
          | none ↦ elim (choose_id operation_id milliseconds random) [
            | err e ↦ (o, err e)
            | ok chosen ↦ reserve runtime_version command capabilities chosen now o
          ]
        ]
      ]

-- The calls of an operation, each with the clock's reading.
pub data Call : Type 0 where
  emit_progress_call : Bytes → ProgressEvent → Call
  emit_state_call : Bytes → Bytes → Bytes → Bytes → Option Details → Call
  emit_log_call : Bytes → Bytes → Bytes → Bytes → Call
  emit_error_call : Bytes → ErrorEvent → Call
  emit_warning_call : Bytes → WarningSummary → Call
  emit_result_call : Bytes → ResultEvent → Call

module _ {R : Type 0} (env : Outside R) (operation_id : Bytes) where
  unfoldable pub call : Call → ProcessOutput R → ProcessOutput R × Option EmitError
  call (emit_progress_call now e) o = emit env operation_id now (progress e) o
  call (emit_state_call now s t m d) o = emit env operation_id now (state s t m d) o
  call (emit_log_call now s t m) o = emit env operation_id now (log s t m) o
  call (emit_error_call now e) o = emit env operation_id now (error e) o
  call (emit_warning_call now w) o = emit_warning env operation_id now w o
  call (emit_result_call now r) o = emit_result env operation_id now r o

  -- The output after all calls, those that fail included.
  unfoldable pub run : List Call → ProcessOutput R → ProcessOutput R
  run [] o = o
  run (c ∷ cs) o = run cs (call c o).0
