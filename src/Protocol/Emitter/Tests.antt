-- ===== src/Protocol/Emitter/Tests.antt =====
-- An operation with concrete collaborators, and the theorems at it.
use mathlib.Core.Option.{some-injective}
use auto_mas_runtime.Base.{
  subst, ℕ, ◌+◌, ◌≡◌, ◌≢◌, refl, true, false, List, [], ◌∷◌, none, some, Bytes, codes, bytes_eq,
  arith, length, take, ltb, ◌==◌, if◌then◌else◌,
}
use auto_mas_runtime.Base.Int.{pos}
use auto_mas_runtime.Protocol.Event.{
  Event, end, WarningSummary, ResultEvent, summaries, count, flag, normalize_warning, normalize,
  type_of,
}
use auto_mas_runtime.Protocol.OperationId.{valid_operation_id, is_ulid_character}
use auto_mas_runtime.Protocol.Emitter.{
  RenderResult, rendered, not_sticky, broken, EmitError, write_failed, ProcessOutput, Outside,
  new_process_output, u64, max_result_warning_summaries, emit, emit_warning, emit_result,
  emit_prepared_locked, reject_locked, result_details, snapshot_warning, decode_twice, send_warning,
}
use auto_mas_runtime.Protocol.Emitter.Session.{
  Either, ok, err, with_operation_id, Call, emit_log_call, emit_warning_call, emit_result_call,
  call, run, new_emitter, apply_options, check_capabilities, is_known_capability, choose_id,
  reserve,
}
use auto_mas_runtime.Protocol.Emitter.Recording.{Recorded, recording}
use auto_mas_runtime.Protocol.Emitter.Effect.{KeepsContainers}
use auto_mas_runtime.Protocol.Emitter.Stream.{warnings_of}
use auto_mas_runtime.Protocol.Emitter.Keys.{lookup}
use auto_mas_runtime.Protocol.Emitter.Refusal.{write_error_sticks, result_is_final, late_error}
use auto_mas_runtime.Protocol.Emitter.Operation.{
  new_session, IsStream, operation-IsStream, result_details_ledger, second_emitter_refused,
}

-- A renderer that fails on its third event, and a codec that knows one warning.
abbrev low_disk : WarningSummary
low_disk = record {
  code = codes "LOW_DISK";
  stage = codes "uv.check";
  message = codes "low";
  retryable = false;
  remediation = some [];
  details = some end;
}

abbrev counting : ℕ → Event → RenderResult × ℕ
counting n event = (if n == 2 then not_sticky (codes "full") else rendered, n + 1)

abbrev outside : Outside ℕ
outside = record {
  render_event = counting;
  marshal = λ w. some (codes "{}");
  decode = λ e. some low_disk;
}

keeps : KeepsContainers outside
keeps w s e m d = subst (λ x. normalize_warning x ≡ x) (some-injective _ _ d) refl

abbrev ulid : Bytes
ulid = codes "01J00000000000000000000000"

abbrev session : ProcessOutput (Recorded ℕ) × Either Bytes
session =
    new_session outside (codes "v1") (codes "doctor") (codes "log.stream" ∷ [])
      (with_operation_id ulid ∷ []) (pos 0) none (codes "t0") 0

abbrev started : ProcessOutput (Recorded ℕ)
started = session.0

session_started : session ≡ (started, ok ulid)
unfolding new_emitter apply_options check_capabilities is_known_capability choose_id reserve
    valid_operation_id is_ulid_character emit reject_locked emit_prepared_locked new_process_output
    recording bytes_eq type_of normalize
session_started = refl

abbrev outcome : ResultEvent
outcome = record {
  success = true;
  code = [];
  stage = codes "doctor";
  status = codes "succeeded";
  message = codes "done";
  retryable = false;
  remediation = none;
  details = none;
}

abbrev calls : List Call
calls =
    emit_warning_call (codes "t1") low_disk
    ∷ emit_log_call (codes "t2") [] [] []
    ∷ emit_warning_call (codes "t3") low_disk
    ∷ emit_result_call (codes "t4") outcome
    ∷ emit_result_call (codes "t5") outcome
    ∷ []

abbrev finished : ProcessOutput (Recorded ℕ)
finished = run (recording outside) ulid calls started

-- The log event could not be rendered; it takes no number.
finished_state :
    (finished.next_sequence ≡ 5) × (finished.terminal ≡ true) × (finished.warning_count ≡ 2)
unfolding run call emit emit_warning emit_result emit_prepared_locked send_warning snapshot_warning
    decode_twice reject_locked recording type_of normalize result_details new_emitter apply_options
    check_capabilities is_known_capability choose_id reserve valid_operation_id is_ulid_character
    new_process_output bytes_eq
finished_state = (refl, refl, refl)

operation-IsStream_example : IsStream ulid finished.renderer.delivered
operation-IsStream_example =
    operation-IsStream outside keeps (codes "v1") (codes "doctor") (codes "log.stream" ∷ [])
      (with_operation_id ulid ∷ []) (pos 0) none (codes "t0") 0 session_started calls

two_warnings : u64 (length (warnings_of finished.renderer.delivered)) ≢ 0
unfolding warnings_of run call emit emit_warning emit_result emit_prepared_locked send_warning
    snapshot_warning decode_twice reject_locked recording type_of normalize result_details
    new_emitter apply_options check_capabilities is_known_capability choose_id reserve
    valid_operation_id is_ulid_character new_process_output bytes_eq
two_warnings e = omega arith

result_details_ledger_example :
    (lookup (codes "warnings") (result_details finished none)
      ≡ some
          (summaries (take max_result_warning_summaries (warnings_of finished.renderer.delivered))))
    × (lookup (codes "warningCount") (result_details finished none)
        ≡ some (count (u64 (length (warnings_of finished.renderer.delivered)))))
    × (lookup (codes "warningsTruncated") (result_details finished none)
        ≡ some (
            flag (
              ltb max_result_warning_summaries
                (u64 (length (warnings_of finished.renderer.delivered))))))
result_details_ledger_example =
    result_details_ledger outside keeps (codes "v1") (codes "doctor") (codes "log.stream" ∷ [])
      (with_operation_id ulid ∷ []) (pos 0) none (codes "t0") 0 session_started calls none
      two_warnings

second_emitter_refused_example :
    (e : EmitError) × (new_emitter
        (recording outside)
        (codes "v1")
        (codes "cleanup")
        []
        []
        (pos 5)
        none
        (codes "t6")
        finished
      ≡ (finished, err e))
second_emitter_refused_example =
    second_emitter_refused outside keeps (codes "v1") (codes "doctor") (codes "log.stream" ∷ [])
      (with_operation_id ulid ∷ []) (pos 0) none (codes "t0") 0 session_started calls (codes "v1")
      (codes "cleanup") [] [] (pos 5) none (codes "t6")

-- A renderer whose third write breaks.
abbrev breaking : ℕ → Event → RenderResult × ℕ
breaking n event = (if n == 2 then broken (codes "pipe") else rendered, n + 1)

abbrev fragile : Outside ℕ
fragile = record outside { render_event = breaking }

abbrev two_written : ProcessOutput ℕ
two_written = record (new_process_output 2) { next_sequence = 3; emitter_created = true }

third_breaks :
    (call fragile ulid (emit_log_call (codes "t2") [] [] []) two_written).1
    ≡ some (write_failed (codes "pipe"))
unfolding call emit reject_locked emit_prepared_locked type_of normalize new_process_output
third_breaks = refl

write_error_sticks_example :
    (run fragile ulid calls (call fragile ulid (emit_log_call (codes "t2") [] [] []) two_written).0
      ≡ (call fragile ulid (emit_log_call (codes "t2") [] [] []) two_written).0)
    × (call fragile ulid
          (emit_log_call (codes "t9") [] [] [])
          (call fragile ulid (emit_log_call (codes "t2") [] [] []) two_written).0
        ≡ (
          (call fragile ulid (emit_log_call (codes "t2") [] [] []) two_written).0,
          some (write_failed (codes "pipe")),
        ))
write_error_sticks_example =
    write_error_sticks fragile ulid (emit_log_call (codes "t2") [] [] []) calls
      (emit_log_call (codes "t9") [] [] []) two_written (codes "pipe") third_breaks

result_emitted : (emit_result outside ulid (codes "t4") outcome (new_process_output 0)).1 ≡ none
unfolding emit_result reject_locked emit_prepared_locked type_of normalize new_process_output
result_emitted = refl

result_is_final_example :
    (run outside ulid calls (emit_result outside ulid (codes "t4") outcome (new_process_output 0)).0
      ≡ (emit_result outside ulid (codes "t4") outcome (new_process_output 0)).0)
    × (call outside ulid
          (emit_result_call (codes "t9") outcome)
          (emit_result outside ulid (codes "t4") outcome (new_process_output 0)).0
        ≡ (
          (emit_result outside ulid (codes "t4") outcome (new_process_output 0)).0,
          some (late_error (emit_result_call (codes "t9") outcome)),
        ))
result_is_final_example =
    result_is_final outside ulid (codes "t4") outcome calls (emit_result_call (codes "t9") outcome)
      (new_process_output 0) result_emitted
