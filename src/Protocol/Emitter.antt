-- ===== src/Protocol/Emitter.antt =====
-- internal/protocol/emitter.go: the process output and the emitter that reserves it. The mutex is
-- held for a whole call, so a call is one step on the state. A renderer is a parameter: its state
-- and what its `RenderX` methods answer. So is `encoding/json`, through which a warning is
-- snapshotted, and the entropy source. A clock reading is an argument of each call.
pub mod Session
pub mod Recording
pub mod Effect
pub mod Stream
pub mod Keys
pub mod Sticky
pub mod Refusal
pub mod Operation
mod Tests
use auto_mas_runtime.Base.{
  ℕ, ◌+◌, ◌%◌, ◌^◌, Bool, true, false, not, List, [], ◌∷◌, ◌++◌, Option, none, some, Bytes, codes,
  length, all, any, map, filter, bytes_eq, ltb, ◌==◌, if◌then◌else◌, is_none, or_else,
}
use auto_mas_runtime.Base.Int.{ℤ}
use auto_mas_runtime.Protocol.Event.{
  EventType, type_result, type_warning, Fields, end, WarningSummary, Detail, summaries, count, flag,
  Details, ResultEvent, Payload, hello, warning, result, Event, Common, type_of, normalize,
  normalize_warning, clone_warning_summary,
}
use auto_mas_runtime.Protocol.OperationId.{
  IdError, IdResult, id, failed, valid_operation_id, new_operation_id,
}

abbrev pub version : ℕ
version = 1

abbrev pub max_result_warning_summaries : ℕ
max_result_warning_summaries = 256

-- `uint64` arithmetic.
abbrev pub u64 : ℕ → ℕ
u64 n = n % 2 ^ 64

-- What a renderer answers: nil, an error that leaves the output intact, or a failed write.
pub data RenderResult : Type 0 where
  rendered : RenderResult
  not_sticky : Bytes → RenderResult
  broken : Bytes → RenderResult

pub data EmitError : Type 0 where
  result_already_emitted event_after_result : EmitError
  write_failed not_rendered : Bytes → EmitError
  snapshot_encode snapshot_decode : EmitError
  emitter_exists nil_option invalid_operation_id nil_clock : EmitError
  unknown_capability : Bytes → EmitError
  no_operation_id : IdError → EmitError

pub record ProcessOutput (R : Type 0) : Type 0 where
  pub renderer : R
  pub next_sequence : ℕ
  pub write_err : Option Bytes
  pub emitter_created : Bool
  pub terminal : Bool
  pub warnings : List WarningSummary
  pub warning_count : ℕ

-- The renderer's methods, and `encoding/json` on a warning's business fields.
pub record Outside (R : Type 0) : Type 0 where
  pub render_event : R → Event → RenderResult × R
  pub marshal : WarningSummary → Option Bytes
  pub decode : Bytes → Option WarningSummary

-- `NewProcessOutputWithRenderer`, for a renderer that is not nil.
unfoldable pub new_process_output : {R : Type 0} → R → ProcessOutput R
new_process_output r = record {
  renderer = r;
  next_sequence = 1;
  write_err = none;
  emitter_created = false;
  terminal = false;
  warnings = [];
  warning_count = 0;
}

abbrev pub is_result : EventType → Bool
is_result type_result = true
is_result _ = false

-- `rejectLocked`; `none` lets the event pass.
unfoldable pub reject_locked : {R : Type 0} → ProcessOutput R → EventType → Option EmitError
reject_locked o event_type =
    if o.terminal
    then (if is_result event_type then some result_already_emitted else some event_after_result)
    else or_else none (λ e. some (write_failed e)) o.write_err

abbrev common_of : {R : Type 0} → ProcessOutput R → EventType → Bytes → Bytes → Common
common_of o event_type operation_id now = record {
  protocol = version;
  event_type = event_type;
  operation_id = operation_id;
  sequence = o.next_sequence;
  timestamp = now;
}

-- What follows the renderer's answer: `terminal` was reserved before for a result.
finish_render :
    {R : Type 0} → Bool → RenderResult → ProcessOutput R → ProcessOutput R × Option EmitError
finish_render reserved rendered o = (record o { next_sequence = u64 (o.next_sequence + 1) }, none)
finish_render reserved (not_sticky e) o =
    ((if reserved then record o { terminal = false } else o), some (not_rendered e))
finish_render reserved (broken e) o = (
  record (if reserved then record o { terminal = false } else o) { write_err = some e },
  some (write_failed e),
)

-- The two decodings of a warning, or why there are none.
pub data Snapshot : Type 0 where
  snapshot : WarningSummary → WarningSummary → Snapshot
  no_snapshot : EmitError → Snapshot

unfoldable pub decode_twice : (Bytes → Option WarningSummary) → Option Bytes → Snapshot
decode_twice decode none = no_snapshot snapshot_encode
decode_twice decode (some encoded) = elim (decode encoded) [
  | none ↦ no_snapshot snapshot_decode
  | some canonical ↦ elim (decode encoded) [
    | none ↦ no_snapshot snapshot_decode
    | some ledger ↦ snapshot canonical ledger
  ]
]

-- `delete(m, key)`.
unfoldable pub delete : Bytes → Details → Details
delete key m = filter (λ e. not (bytes_eq e.0 key)) m

-- `m[key] = value`.
abbrev pub assign : Bytes → Detail → Details → Details
assign key value m = delete key m ++ (key, value) ∷ []

abbrev pub without_reserved : Details → Details
without_reserved m =
    delete (codes "warningsTruncated") (delete (codes "warningCount") (delete (codes "warnings") m))

-- `resultDetails`: a new map, in which the emitter owns three keys.
unfoldable pub result_details : {R : Type 0} → ProcessOutput R → Option Details → Details
result_details o details =
    let copied = without_reserved (or_else [] (λ d. d) details) in
    if o.warning_count == 0
    then copied
    else assign (codes "warningsTruncated")
        (flag (ltb max_result_warning_summaries o.warning_count))
        (assign (codes "warningCount") (count o.warning_count)
          (assign (codes "warnings") (summaries (map clone_warning_summary o.warnings)) copied))

module _ {R : Type 0} (env : Outside R) where
  -- `emitPreparedLocked`.
  unfoldable pub emit_prepared_locked :
      Bytes → Bytes → Payload → ProcessOutput R → ProcessOutput R × Option EmitError
  unfolding finish_render
  emit_prepared_locked operation_id now payload o =
      let event : Event = record {
        common = common_of o (type_of payload) operation_id now;
        payload = normalize payload;
      } in
      let reserved = is_result (type_of payload) in
      let o' = if reserved then record o { terminal = true } else o in
      let (answer, r) = env.render_event o'.renderer event in
      finish_render reserved answer (record o' { renderer = r })

  -- `emit`: all events but a warning and a result.
  unfoldable pub emit :
      Bytes → Bytes → Payload → ProcessOutput R → ProcessOutput R × Option EmitError
  emit operation_id now payload o =
      or_else (emit_prepared_locked operation_id now payload o) (λ e. (o, some e))
        (reject_locked o (type_of payload))

  -- `snapshotWarning`: the event that is sent and the ledger's entry are two decodings of one
  -- encoding.
  unfoldable pub snapshot_warning : WarningSummary → Snapshot
  snapshot_warning event = decode_twice env.decode (env.marshal event)

  -- The ledger after a warning was sent.
  unfoldable pub record_warning : WarningSummary → ProcessOutput R → ProcessOutput R
  record_warning ledger o = record o {
    warning_count = u64 (o.warning_count + 1);
    warnings =
        if ltb (length o.warnings) max_result_warning_summaries
        then o.warnings ++ ledger ∷ []
        else o.warnings;
  }

  unfoldable pub send_warning :
      Bytes → Bytes → Snapshot → ProcessOutput R → ProcessOutput R × Option EmitError
  unfolding record_warning
  send_warning operation_id now (no_snapshot e) o = (o, some e)
  send_warning operation_id now (snapshot canonical ledger) o =
      let (o', err) = emit_prepared_locked operation_id now (warning canonical) o in
      or_else (record_warning ledger o', none) (λ e. (o', some e)) err

  -- `EmitWarning`: the event is normalized before it is snapshotted.
  unfoldable pub emit_warning :
      Bytes → Bytes → WarningSummary → ProcessOutput R → ProcessOutput R × Option EmitError
  unfolding send_warning
  emit_warning operation_id now event o =
      or_else (send_warning operation_id now (snapshot_warning (normalize_warning event)) o)
        (λ e. (o, some e)) (reject_locked o type_warning)

  -- `EmitResult`.
  unfoldable pub emit_result :
      Bytes → Bytes → ResultEvent → ProcessOutput R → ProcessOutput R × Option EmitError
  emit_result operation_id now event o =
      or_else
        (emit_prepared_locked operation_id now
          (result (record event { details = some (result_details o event.details) })) o)
        (λ e. (o, some e)) (reject_locked o type_result)
