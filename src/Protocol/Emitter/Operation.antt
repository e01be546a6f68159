-- ===== src/Protocol/Emitter/Operation.antt =====
-- One operation from `NewEmitter` to its last call: what its output stream looks like, and what
-- the details of its result say.
use auto_mas_runtime.Base.{
  ◌≡◌, ◌≢◌, refl, ap, sym, ◌∙◌, subst, true, List, [], Option, some, Bytes, codes, arith, length,
  take, All, ltb, is_none, Option-cases, inl, inr,
}
use auto_mas_runtime.Base.Int.{ℤ}
use auto_mas_runtime.Protocol.Event.{
  Event, hello, summaries, count, flag, Details, normalize, type_of, Payload,
}
use auto_mas_runtime.Protocol.Emitter.{
  EmitError, ProcessOutput, Outside, new_process_output, u64, max_result_warning_summaries,
  reject_locked, emit, result_details, emit_prepared_locked,
}
use auto_mas_runtime.Protocol.Emitter.Session.{
  Either, Either-cases, nil_if_empty, ok, err, EmitterOption, reserve, new_emitter, Call, run,
  apply_options, choose_id, check_capabilities,
}
use auto_mas_runtime.Protocol.Emitter.Recording.{
  Recorded, recording, prepared-Sent, prepared_ledger,
}
use auto_mas_runtime.Protocol.Emitter.Effect.{KeepsContainers}
use auto_mas_runtime.Protocol.Emitter.Refusal.{run_reserved, reserved_refuses}
use auto_mas_runtime.Protocol.Emitter.Keys.{lookup, warning_keys}
use auto_mas_runtime.Protocol.Emitter.Stream.{
  Inv, run-Inv, Numbered, ResultLast, HelloFirst, warnings_of,
}

module _ {R : Type 0} (env : Outside R) (version command : Bytes) (capabilities : List Bytes) where
  -- The output before `NewEmitter`, with nothing delivered.
  abbrev pub unused : R → ProcessOutput (Recorded R)
  unused r = new_process_output (record { inner = r; delivered = [] })

  abbrev pub new_session :
      List EmitterOption → ℤ → Option Bytes → Bytes → R → ProcessOutput (Recorded R) × Either Bytes
  new_session options milliseconds random now r =
      new_emitter (recording env) version command capabilities options milliseconds random now
        (unused r)

  new_emitter_ok :
      (options : List EmitterOption) (milliseconds : ℤ) (random : Option Bytes) (now : Bytes)
      (o : ProcessOutput (Recorded R)) {o' : ProcessOutput (Recorded R)} {id : Bytes}
      → new_emitter (recording env) version command capabilities options milliseconds random now o
        ≡ (o', ok id)
      → (chosen : Bytes) × (reserve (recording env) version command capabilities chosen now o
          ≡ (o', ok id))
  unfolding new_emitter
  new_emitter_ok options milliseconds random now o h =
      elim (Either-cases (apply_options [] options)) [
        | inl (e, p) ↦ absurd (ground arith)
        | inr (i, p) ↦ elim (Option-cases (check_capabilities capabilities)) [
          | inr (e, q) ↦ absurd (ground arith)
          | inl q ↦ elim (Either-cases (choose_id i milliseconds random)) [
            | inl (e, c) ↦ absurd (ground arith)
            | inr (chosen, c) ↦ (chosen, ground arith)
          ]
        ]
      ]

  abbrev greeting : Payload
  greeting = hello version command (nil_if_empty capabilities)

  abbrev held : R → ProcessOutput (Recorded R)
  held r = record (unused r) { emitter_created = true }

  greeted :
      (id now : Bytes) (r : R)
      → is_none (emit_prepared_locked (recording env) id now greeting (held r)).1 ≡ true
      → Inv id (emit_prepared_locked (recording env) id now greeting (held r)).0
  unfolding new_process_output normalize type_of warnings_of
  greeted id now r h =
      let s = prepared-Sent env id now greeting (held r) refl h in
      let (w, n) = prepared_ledger env id now greeting (held r) in
      record {
        numbered = rw s.delivery (refl, tt);
        next = rw (s.delivery, s.counted);
        addressed = rw s.delivery (refl, tt);
        still_open = λ t. rw s.delivery (refl, tt);
        result_last = rw s.delivery tt;
        ledger = rw (s.delivery, w);
        counted = rw (s.delivery, n);
        hello_first = rw s.delivery refl;
      }

  reserve_ok :
      (chosen now : Bytes) (r : R) {o' : ProcessOutput (Recorded R)} {id : Bytes}
      → reserve (recording env) version command capabilities chosen now (unused r) ≡ (o', ok id)
      → (chosen ≡ id)
        × (is_none (emit_prepared_locked (recording env) chosen now greeting (held r)).1 ≡ true)
        × ((emit_prepared_locked (recording env) chosen now greeting (held r)).0 ≡ o')
  unfolding reserve emit reject_locked new_process_output
  reserve_ok chosen now r h = ground arith

  -- After `NewEmitter` has succeeded the output holds `hello` alone, and is reserved.
  session_ok :
      (options : List EmitterOption) (milliseconds : ℤ) (random : Option Bytes) (now : Bytes)
      (r : R) {o : ProcessOutput (Recorded R)} {id : Bytes}
      → new_session options milliseconds random now r ≡ (o, ok id)
      → Inv id o × (o.emitter_created ≡ true)
  unfolding new_process_output
  session_ok options milliseconds random now r {o} h =
      let (chosen, e) = new_emitter_ok options milliseconds random now (unused r) h in
      let (same, delivered, final) = reserve_ok chosen now r e in
      let inv = greeted chosen now r delivered in
      let s = prepared-Sent env chosen now greeting (held r) refl delivered in
      (
        subst (λ i. Inv i o) same (subst (Inv chosen) final inv),
        sym (ap (λ x. x.emitter_created) final) ∙ s.reserved,
      )

-- What a reader of the stream of one operation may rely on.
pub record IsStream (operation_id : Bytes) (events : List Event) : Type 0 where
  pub hello_first : HelloFirst events
  pub numbered : Numbered 1 events
  pub addressed : All (λ e. e.common.operation_id ≡ operation_id) events
  pub result_last : ResultLast events

module _ {R : Type 0} (env : Outside R) (containers : KeepsContainers env) (version command : Bytes)
    (capabilities : List Bytes) (options : List EmitterOption) (milliseconds : ℤ)
    (random : Option Bytes) (now : Bytes) (r : R) {o : ProcessOutput (Recorded R)} {id : Bytes}
    (started : new_session env version command capabilities options milliseconds random now r
      ≡ (o, ok id)) where
  session_Inv : (cs : List Call) → Inv id (run (recording env) id cs o)
  session_Inv cs =
      run-Inv env containers id cs o
        (session_ok env version command capabilities options milliseconds random now r started).0

  -- Once an emitter is made, whatever calls follow and however rendering fails, the events that
  -- reach the output begin with `hello`, carry the emitter's operation id, are numbered 1, 2, 3, …
  -- without a gap, and none of them stands behind a `result`.
  pub operation-IsStream :
      (cs : List Call) → IsStream id (run (recording env) id cs o).renderer.delivered
  operation-IsStream cs =
      let h = session_Inv cs in
      record {
        hello_first = h.hello_first;
        numbered = h.numbered;
        addressed = h.addressed;
        result_last = h.result_last;
      }

  -- After any calls, if the count of the warnings that reached the output is not 0 as `uint64`,
  -- the details of a result list the first 256 of them in order, each with the fields of its event,
  -- and say how many there were and whether that is more than 256.
  pub result_details_ledger :
      (cs : List Call) (details : Option Details)
      → let o' = run (recording env) id cs o in
        let sent = warnings_of o'.renderer.delivered in
        u64 (length sent) ≢ 0
        → (lookup (codes "warnings") (result_details o' details)
            ≡ some (summaries (take max_result_warning_summaries sent)))
          × (lookup (codes "warningCount") (result_details o' details)
              ≡ some (count (u64 (length sent))))
          × (lookup (codes "warningsTruncated") (result_details o' details)
              ≡ some (flag (ltb max_result_warning_summaries (u64 (length sent)))))
  result_details_ledger cs details n =
      let h = session_Inv cs in
      let o' = run (recording env) id cs o in
      let (w, c, t) = warning_keys o' details (λ z. n (sym h.counted ∙ z)) in
      (
        w ∙ ap (λ l. some (summaries l)) h.ledger,
        c ∙ ap (λ k. some (count k)) h.counted,
        t ∙ ap (λ k. some (flag (ltb max_result_warning_summaries k))) h.counted,
      )

  run-reserved : (cs : List Call) → (run (recording env) id cs o).emitter_created ≡ true
  run-reserved cs =
      run_reserved env containers id cs o
        (session_ok env version command capabilities options milliseconds random now r started).1

  -- After a successful `NewEmitter` and any calls, no further `NewEmitter` succeeds on the output,
  -- and none changes it.
  pub second_emitter_refused :
      (cs : List Call) (version' command' : Bytes) (capabilities' : List Bytes)
      (options' : List EmitterOption) (milliseconds' : ℤ) (random' : Option Bytes) (now' : Bytes)
      → let o' = run (recording env) id cs o in
        (e : EmitError) × (new_emitter
            (recording env)
            version'
            command'
            capabilities'
            options'
            milliseconds'
            random'
            now'
            o'
          ≡ (o', err e))
  second_emitter_refused cs version' command' capabilities' options' milliseconds' random' now' =
      reserved_refuses env version' command' capabilities' options' milliseconds' random' now'
        (run (recording env) id cs o) (run-reserved cs)
