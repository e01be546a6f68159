-- ===== src/Protocol/Emitter/Recording.antt =====
-- A renderer that also keeps, in order, the events that it has rendered: with it a statement about
-- the output stream is a statement about the state.
use auto_mas_runtime.Base.{
  ◌+◌, ◌≡◌, true, false, List, [], ◌∷◌, ◌++◌, Option, Bytes, arith, is_none,
}
use auto_mas_runtime.Protocol.Event.{Payload, Event, type_of, normalize}
use auto_mas_runtime.Protocol.Emitter.{
  RenderResult, rendered, EmitError, ProcessOutput, Outside, is_result, u64, common_of,
  emit_prepared_locked,
}

pub record Recorded (R : Type 0) : Type 0 where
  pub inner : R
  pub delivered : List Event

-- What was delivered, after an answer.
abbrev pub deliver : RenderResult → Event → List Event → List Event
deliver rendered event l = l ++ event ∷ []
deliver _ event l = l

unfoldable pub recording : {R : Type 0} → Outside R → Outside (Recorded R)
recording env = record {
  render_event = λ r event.
      let (answer, inner) = env.render_event r.inner event in
      (answer, record { inner = inner; delivered = deliver answer event r.delivered });
  marshal = env.marshal;
  decode = env.decode;
}

module _ {R : Type 0} where
  -- `o'` is `o` after the delivery of one event.
  pub record Sent (o o' : ProcessOutput (Recorded R)) (event : Event) : Type 0 where
    pub was_open : o.terminal ≡ false
    pub delivery : o'.renderer.delivered ≡ o.renderer.delivered ++ event ∷ []
    pub number : event.common.sequence ≡ o.next_sequence
    pub counted : o'.next_sequence ≡ u64 (o.next_sequence + 1)
    pub ended : o'.terminal ≡ is_result event.common.event_type
    pub no_error : o'.write_err ≡ o.write_err
    pub reserved : o'.emitter_created ≡ o.emitter_created

  -- `o'` differs from `o` in the renderer's own state and in a remembered write error at most.
  pub record Kept (o o' : ProcessOutput (Recorded R)) : Type 0 where
    pub delivery : o'.renderer.delivered ≡ o.renderer.delivered
    pub counted : o'.next_sequence ≡ o.next_sequence
    pub ended : o'.terminal ≡ o.terminal
    pub warned : o'.warnings ≡ o.warnings
    pub warnings_counted : o'.warning_count ≡ o.warning_count
    pub reserved : o'.emitter_created ≡ o.emitter_created

module _ {R : Type 0} (env : Outside R) (operation_id now : Bytes) (payload : Payload)
    (o : ProcessOutput (Recorded R)) where
  abbrev pub event_of : Event
  event_of = record {
    common = common_of o (type_of payload) operation_id now;
    payload = normalize payload;
  }

  abbrev pub after : ProcessOutput (Recorded R) × Option EmitError
  after = emit_prepared_locked (recording env) operation_id now payload o

  pub prepared-Sent : o.terminal ≡ false → is_none after.1 ≡ true → Sent o after.0 event_of
  unfolding emit_prepared_locked recording
  prepared-Sent t h = ground arith

  pub prepared_ledger : (after.0.warnings ≡ o.warnings) × (after.0.warning_count ≡ o.warning_count)
  unfolding emit_prepared_locked recording
  prepared_ledger = ground arith

  pub prepared-Kept : o.terminal ≡ false → is_none after.1 ≡ false → Kept o after.0
  unfolding emit_prepared_locked recording
  prepared-Kept t h = ground arith
