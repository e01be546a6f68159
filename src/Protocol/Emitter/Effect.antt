-- ===== src/Protocol/Emitter/Effect.antt =====
-- What one call of an emitter does to the output: it delivers one event, or nothing.
use auto_mas_runtime.Base.{
  ℕ, ◌+◌, ◌≡◌, refl, true, false, List, [], ◌∷◌, ◌++◌, Option, none, some, Bytes, arith, length,
  ltb, if◌then◌else◌, is_none, Bool-cases, Option-cases, inl, inr, ap, ◌⊎◌,
}
use auto_mas_runtime.Protocol.Event.{
  EventType, type_warning, type_result, Payload, progress, ResultEvent, state, log, warning, error,
  result, Event, WarningSummary, type_of, normalize, normalize_warning,
}
use auto_mas_runtime.Protocol.Emitter.{
  EmitError, ProcessOutput, Outside, Snapshot, snapshot, no_snapshot, reject_locked, u64, emit,
  emit_warning, emit_result, decode_twice, snapshot_warning, send_warning, record_warning,
  emit_prepared_locked, max_result_warning_summaries, result_details,
}
use auto_mas_runtime.Protocol.Emitter.Session.{
  Call, emit_progress_call, emit_state_call, emit_log_call, emit_error_call, emit_warning_call,
  emit_result_call, call,
}
use auto_mas_runtime.Protocol.Emitter.Recording.{
  Recorded, recording, Sent, Kept, event_of, prepared-Sent, prepared_ledger, prepared-Kept,
}

-- The warning that an event reports.
abbrev pub warning_of : Payload → Option WarningSummary
warning_of (warning w) = some w
warning_of _ = none

-- The ledger after the delivery of an event.
abbrev pub ledger_after : List WarningSummary → Option WarningSummary → List WarningSummary
ledger_after l none = l
ledger_after l (some w) = if ltb (length l) max_result_warning_summaries then l ++ w ∷ [] else l

abbrev pub count_after : ℕ → Option WarningSummary → ℕ
count_after n none = n
count_after n (some w) = u64 (n + 1)

pub data Effect {R : Type 0} (operation_id : Bytes) (o o' : ProcessOutput (Recorded R))
    : Type 0 where
  kept : Kept o o' → Effect operation_id o o'
  sent :
      (event : Event)
      → event.common.operation_id ≡ operation_id
      → Sent o o' event
      → o'.warnings ≡ ledger_after o.warnings (warning_of event.payload)
      → o'.warning_count ≡ count_after o.warning_count (warning_of event.payload)
      → Effect operation_id o o'

-- What `encoding/json` documents: an array is decoded to a slice that is not nil, and an object to
-- such a map; a warning that was normalized before it was encoded stays so.
abbrev pub KeepsContainers : {R : Type 0} → Outside R → Type 0
KeepsContainers env =
    (w s : WarningSummary) (e : Bytes)
    → env.marshal (normalize_warning w) ≡ some e
    → env.decode e ≡ some s
    → normalize_warning s ≡ s

module _ {R : Type 0} (env : Outside R) (operation_id : Bytes)
    (o : ProcessOutput (Recorded R)) where
  Kept-refl : Kept o o
  Kept-refl = record {
    delivery = refl;
    counted = refl;
    ended = refl;
    warned = refl;
    warnings_counted = refl;
    reserved = refl;
  }

  reject_open : (t : EventType) → reject_locked o t ≡ none → o.terminal ≡ false
  unfolding reject_locked
  reject_open t h = ground arith

  prepared-Effect :
      (now : Bytes) (payload : Payload)
      → o.terminal ≡ false
      → warning_of (normalize payload) ≡ none
      → Effect operation_id o (emit_prepared_locked (recording env) operation_id now payload o).0
  prepared-Effect now payload t p =
      elim (Bool-cases
        (is_none (emit_prepared_locked (recording env) operation_id now payload o).1)) [
          | inl h ↦
              let (l, n) = prepared_ledger env operation_id now payload o in
              sent (event_of env operation_id now payload o) refl
                (prepared-Sent env operation_id now payload o t h) (rw p l) (rw p n)
          | inr h ↦ kept (prepared-Kept env operation_id now payload o t h)
        ]

  emit-Effect :
      (now : Bytes) (payload : Payload)
      → warning_of (normalize payload) ≡ none
      → Effect operation_id o (emit (recording env) operation_id now payload o).0
  unfolding emit
  emit-Effect now payload p = elim (Option-cases (reject_locked o (type_of payload))) [
    | inl h ↦ rw h (prepared-Effect now payload (reject_open (type_of payload) h) p)
    | inr (e, h) ↦ rw h (kept Kept-refl)
  ]

decode_twice-eq :
    (decode : Bytes → Option WarningSummary) (m : Option Bytes) {c l : WarningSummary}
    → decode_twice decode m ≡ snapshot c l
    → (e : Bytes) × (m ≡ some e) × (decode e ≡ some c) × (l ≡ c)
unfolding decode_twice
decode_twice-eq decode none h = cc
decode_twice-eq decode (some e) h = elim (Option-cases (decode e)) [
  | inl n ↦ absurd (ground arith)
  | inr (x, n) ↦ (e, refl, ground arith, ground arith)
]

pub Snapshot-cases :
    (s : Snapshot)
    → ((e : EmitError) × (s ≡ no_snapshot e)) ⊎ ((c l : WarningSummary) × (s ≡ snapshot c l))
Snapshot-cases (no_snapshot e) = inl (e, refl)
Snapshot-cases (snapshot c l) = inr (c, l, refl)

module _ {R : Type 0} (env : Outside R) (operation_id : Bytes)
    (o : ProcessOutput (Recorded R)) where
  send_sent :
      (now : Bytes) (c l : WarningSummary)
      → is_none (emit_prepared_locked (recording env) operation_id now (warning c) o).1 ≡ true
      → (send_warning (recording env) operation_id now (snapshot c l) o).0
        ≡ record_warning
            (recording env)
            l
            (emit_prepared_locked (recording env) operation_id now (warning c) o).0
  unfolding send_warning
  send_sent now c l h = ground arith

  send_kept :
      (now : Bytes) (c l : WarningSummary)
      → is_none (emit_prepared_locked (recording env) operation_id now (warning c) o).1 ≡ false
      → (send_warning (recording env) operation_id now (snapshot c l) o).0
        ≡ (emit_prepared_locked (recording env) operation_id now (warning c) o).0
  unfolding send_warning
  send_kept now c l h = ground arith

  recorded-Sent :
      {o' : ProcessOutput (Recorded R)} {event : Event} (w : WarningSummary)
      → Sent o o' event
      → Sent o (record_warning (recording env) w o') event
  unfolding record_warning
  recorded-Sent w s = ground arith

  normal_payload :
      (c : WarningSummary) → normalize_warning c ≡ c → warning_of (normalize (warning c)) ≡ some c
  unfolding normalize
  normal_payload c h = ap some h

  recorded_ledger :
      (o' : ProcessOutput (Recorded R)) (w : WarningSummary)
      → o'.warnings ≡ o.warnings
      → (record_warning (recording env) w o').warnings ≡ ledger_after o.warnings (some w)
  unfolding record_warning
  recorded_ledger o' w h = ground arith

  recorded_count :
      (o' : ProcessOutput (Recorded R)) (w : WarningSummary)
      → o'.warning_count ≡ o.warning_count
      → (record_warning (recording env) w o').warning_count ≡ count_after o.warning_count (some w)
  unfolding record_warning
  recorded_count o' w h = ground arith

  -- A warning that was snapshotted is delivered and entered into the ledger, or neither.
  send-Effect :
      (now : Bytes) (c : WarningSummary)
      → o.terminal ≡ false
      → normalize_warning c ≡ c
      → Effect operation_id o (send_warning (recording env) operation_id now (snapshot c c) o).0
  send-Effect now c t normal =
      let (w, n) = prepared_ledger env operation_id now (warning c) o in
      elim (Bool-cases
        (is_none (emit_prepared_locked (recording env) operation_id now (warning c) o).1)) [
          | inl h ↦ rw (send_sent now c c h) (
              sent (event_of env operation_id now (warning c) o) refl
                (recorded-Sent c (prepared-Sent env operation_id now (warning c) o t h))
                (rw (normal_payload c normal) (recorded_ledger _ c w))
                (rw (normal_payload c normal) (recorded_count _ c n)))
          | inr h ↦
              rw (send_kept now c c h) (kept (prepared-Kept env operation_id now (warning c) o t h))
        ]

module _ {R : Type 0} (env : Outside R) (containers : KeepsContainers env) (operation_id : Bytes)
    (o : ProcessOutput (Recorded R)) where
  snapshot_normal :
      (w : WarningSummary) {c l : WarningSummary}
      → snapshot_warning (recording env) (normalize_warning w) ≡ snapshot c l
      → (l ≡ c) × (normalize_warning c ≡ c)
  unfolding snapshot_warning recording
  snapshot_normal w {c} h =
      let (e, m, d, same) = decode_twice-eq env.decode (env.marshal (normalize_warning w)) h in
      (same, containers w c e m d)

  snapshot-Effect :
      (now : Bytes) (w : WarningSummary)
      → o.terminal ≡ false
      → Effect operation_id o
          (send_warning
            (recording env)
            operation_id
            now
            (snapshot_warning (recording env) (normalize_warning w))
            o).0
  snapshot-Effect now w t =
      elim (Snapshot-cases (snapshot_warning (recording env) (normalize_warning w))) [
        | inl (e, h) ↦ rw h (unfold send_warning in kept (Kept-refl env operation_id o))
        | inr (c, l, h) ↦
            let (same, normal) = snapshot_normal w h in
            rw (h, same) (send-Effect env operation_id o now c t normal)
      ]

  warning-Effect :
      (now : Bytes) (w : WarningSummary)
      → Effect operation_id o (emit_warning (recording env) operation_id now w o).0
  unfolding emit_warning
  warning-Effect now w = elim (Option-cases (reject_locked o type_warning)) [
    | inl h ↦ rw h (snapshot-Effect now w (reject_open env operation_id o type_warning h))
    | inr (e, h) ↦ rw h (kept (Kept-refl env operation_id o))
  ]

  result-Effect :
      (now : Bytes) (r : ResultEvent)
      → Effect operation_id o (emit_result (recording env) operation_id now r o).0
  unfolding emit_result normalize
  result-Effect now r = elim (Option-cases (reject_locked o type_result)) [
    | inl h ↦ rw h (
        prepared-Effect env operation_id o now
          (result (record r { details = some (result_details o r.details) }))
          (reject_open env operation_id o type_result h) refl)
    | inr (e, h) ↦ rw h (kept (Kept-refl env operation_id o))
  ]

  -- Every call delivers one event and enters a warning into the ledger, or changes neither.
  pub call-Effect : (c : Call) → Effect operation_id o (call (recording env) operation_id c o).0
  unfolding call normalize
  call-Effect (emit_progress_call now e) = emit-Effect env operation_id o now (progress e) refl
  call-Effect (emit_state_call now s t m d) =
      emit-Effect env operation_id o now (state s t m d) refl
  call-Effect (emit_log_call now s t m) = emit-Effect env operation_id o now (log s t m) refl
  call-Effect (emit_error_call now e) = emit-Effect env operation_id o now (error e) refl
  call-Effect (emit_warning_call now w) = warning-Effect now w
  call-Effect (emit_result_call now r) = result-Effect now r
