-- ===== src/Protocol/Emitter/Sticky.antt =====
-- What a call that reports a failed write, or a result that was emitted, leaves of the output.
use auto_mas_runtime.Base.{
  ◌≡◌, ◌⊎◌, true, false, Option, none, some, Bytes, arith, Option-cases, inl, inr,
}
use auto_mas_runtime.Protocol.Event.{
  EventType, Payload, progress, state, log, error, warning, result, WarningSummary, ResultEvent,
  type_of, type_warning, type_result, normalize_warning,
}
use auto_mas_runtime.Protocol.Emitter.{
  EmitError, write_failed, ProcessOutput, Outside, snapshot, no_snapshot, reject_locked, emit,
  emit_warning, emit_result, emit_prepared_locked, send_warning, snapshot_warning, decode_twice,
  result_details, snapshot_encode, snapshot_decode,
}
use auto_mas_runtime.Protocol.Emitter.Session.{
  Call, emit_progress_call, emit_state_call, emit_log_call, emit_error_call, emit_warning_call,
  emit_result_call, call,
}
use auto_mas_runtime.Protocol.Emitter.Effect.{Snapshot-cases}

-- The failed write is remembered, and the output is open.
abbrev pub Torn : {R : Type 0} → Bytes → ProcessOutput R → Type 0
Torn cause o = (o.write_err ≡ some cause) × (o.terminal ≡ false)

module _ {R : Type 0} (env : Outside R) (id : Bytes) (o : ProcessOutput R) where
  prepared-Torn :
      (now : Bytes) (payload : Payload) (cause : Bytes)
      → o.terminal ≡ false
      → (emit_prepared_locked env id now payload o).1 ≡ some (write_failed cause)
      → Torn cause (emit_prepared_locked env id now payload o).0
  unfolding emit_prepared_locked
  prepared-Torn now payload cause t h = ground (arith, t, h)

  rejected-Torn :
      (t : EventType) (e : EmitError) (cause : Bytes)
      → reject_locked o t ≡ some e
      → e ≡ write_failed cause
      → Torn cause o
  unfolding reject_locked
  rejected-Torn t e cause r h = ground (arith, r, h)

  open_output : (t : EventType) → reject_locked o t ≡ none → o.terminal ≡ false
  unfolding reject_locked
  open_output t h = ground arith

  emit-Torn :
      (now : Bytes) (payload : Payload) (cause : Bytes)
      → (emit env id now payload o).1 ≡ some (write_failed cause)
      → Torn cause (emit env id now payload o).0
  unfolding emit
  emit-Torn now payload cause h = elim (Option-cases (reject_locked o (type_of payload))) [
    | inl r ↦
        rw (emit, r)
          (prepared-Torn now payload cause (open_output (type_of payload) r) (ground (arith, r, h)))
    | inr (e, r) ↦ rw (emit, r) (rejected-Torn (type_of payload) e cause r (ground (arith, r, h)))
  ]

  send-Torn :
      (now : Bytes) (c l : WarningSummary) (cause : Bytes)
      → o.terminal ≡ false
      → (send_warning env id now (snapshot c l) o).1 ≡ some (write_failed cause)
      → Torn cause (send_warning env id now (snapshot c l) o).0
  unfolding send_warning
  send-Torn now c l cause t h =
      elim (Option-cases (emit_prepared_locked env id now (warning c) o).1) [
        | inl e ↦ absurd (ground (arith, e, h))
        | inr (x, e) ↦
            rw (send_warning, e) (prepared-Torn now (warning c) cause t (ground (arith, e, h)))
      ]

  emit_result-Torn :
      (now : Bytes) (event : ResultEvent) (cause : Bytes)
      → (emit_result env id now event o).1 ≡ some (write_failed cause)
      → Torn cause (emit_result env id now event o).0
  unfolding emit_result
  emit_result-Torn now event cause h = elim (Option-cases (reject_locked o type_result)) [
    | inl r ↦
        rw (emit_result, r)
          (prepared-Torn now
            (result (record event { details = some (result_details o event.details) })) cause
            (open_output type_result r) (ground (arith, r, h)))
    | inr (e, r) ↦ rw (emit_result, r) (rejected-Torn type_result e cause r (ground (arith, r, h)))
  ]

  -- A result that was emitted without an error ends the output.
  pub emit_result_ends :
      (now : Bytes) (event : ResultEvent)
      → (emit_result env id now event o).1 ≡ none
      → (emit_result env id now event o).0.terminal ≡ true
  unfolding emit_result emit_prepared_locked type_of
  emit_result_ends now event h = elim (Option-cases (reject_locked o type_result)) [
    | inl r ↦ ground (arith, r, h)
    | inr (e, r) ↦ absurd (ground (arith, r, h))
  ]

no_write_error :
    (decode : Bytes → Option WarningSummary) (m : Option Bytes) (cause : Bytes) (e : EmitError)
    → decode_twice decode m ≡ no_snapshot e
    → (e ≡ snapshot_encode) ⊎ (e ≡ snapshot_decode)
unfolding decode_twice
no_write_error decode none cause e h = inl (ground (arith, h))
no_write_error decode (some x) cause e h = elim (Option-cases (decode x)) [
  | inl n ↦ inr (ground (arith, h, n))
  | inr (c, n) ↦ absurd (ground (arith, h, n))
]

module _ {R : Type 0} (env : Outside R) (id : Bytes) (o : ProcessOutput R) where
  sent-Torn :
      (now : Bytes) (w : WarningSummary) (cause : Bytes)
      → o.terminal ≡ false
      → (send_warning env id now (snapshot_warning env w) o).1 ≡ some (write_failed cause)
      → Torn cause (send_warning env id now (snapshot_warning env w) o).0
  unfolding snapshot_warning send_warning
  sent-Torn now w cause t h = elim (Snapshot-cases (decode_twice env.decode (env.marshal w))) [
    | inl (e, s) ↦
        absurd (ground (arith, s, h, no_write_error env.decode (env.marshal w) cause e s))
    | inr (c, l, s) ↦ rw s (send-Torn env id o now c l cause t (ground (arith, s, h)))
  ]

  emit_warning-Torn :
      (now : Bytes) (w : WarningSummary) (cause : Bytes)
      → (emit_warning env id now w o).1 ≡ some (write_failed cause)
      → Torn cause (emit_warning env id now w o).0
  unfolding emit_warning
  emit_warning-Torn now w cause h = elim (Option-cases (reject_locked o type_warning)) [
    | inl r ↦
        rw (emit_warning, r)
          (sent-Torn now (normalize_warning w) cause (open_output env id o type_warning r)
            (ground (arith, r, h)))
    | inr (e, r) ↦
        rw (emit_warning, r) (rejected-Torn env id o type_warning e cause r (ground (arith, r, h)))
  ]

  -- A call that reports a failed write leaves an open output that remembers it.
  pub call-Torn :
      (c : Call) (cause : Bytes)
      → (call env id c o).1 ≡ some (write_failed cause)
      → Torn cause (call env id c o).0
  unfolding call
  call-Torn (emit_progress_call now e) cause h = emit-Torn env id o now (progress e) cause h
  call-Torn (emit_state_call now s t m d) cause h = emit-Torn env id o now (state s t m d) cause h
  call-Torn (emit_log_call now s t m) cause h = emit-Torn env id o now (log s t m) cause h
  call-Torn (emit_error_call now e) cause h = emit-Torn env id o now (error e) cause h
  call-Torn (emit_warning_call now w) cause h = emit_warning-Torn now w cause h
  call-Torn (emit_result_call now r) cause h = emit_result-Torn env id o now r cause h
