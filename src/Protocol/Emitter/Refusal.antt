-- ===== src/Protocol/Emitter/Refusal.antt =====
-- What an output refuses: any call after a failed write or after its result, and a second emitter.
use auto_mas_runtime.Base.{
  ◌≡◌, refl, ◌∙◌, true, false, List, [], ◌∷◌, Option, some, none, Bytes, arith, Option-cases, inl,
  inr,
}
use auto_mas_runtime.Base.Int.{ℤ}
use auto_mas_runtime.Protocol.Event.{type_of, ResultEvent}
use auto_mas_runtime.Protocol.Emitter.Sticky.{call-Torn, emit_result_ends}
use auto_mas_runtime.Protocol.Emitter.{
  EmitError, write_failed, result_already_emitted, event_after_result, emitter_exists,
  ProcessOutput, Outside, reject_locked, emit, emit_warning, emit_result,
}
use auto_mas_runtime.Protocol.Emitter.Session.{
  Either-cases, err, EmitterOption, reserve, new_emitter, Call, emit_progress_call,
  emit_result_call, call, run, apply_options, choose_id, check_capabilities,
}
use auto_mas_runtime.Protocol.Emitter.Recording.{Recorded, recording}
use auto_mas_runtime.Protocol.Emitter.Effect.{Effect, kept, sent, call-Effect, KeepsContainers}

reserved-Effect :
    {R : Type 0} {id : Bytes} {o o' : ProcessOutput (Recorded R)}
    → Effect id o o'
    → o.emitter_created ≡ true
    → o'.emitter_created ≡ true
reserved-Effect (kept k) h = k.reserved ∙ h
reserved-Effect (sent e a s w n) h = s.reserved ∙ h

module _ {R : Type 0} (env : Outside R) where
  pub run_reserved :
      (containers : KeepsContainers env) (id : Bytes) (cs : List Call)
      (o : ProcessOutput (Recorded R))
      → o.emitter_created ≡ true
      → (run (recording env) id cs o).emitter_created ≡ true
  unfolding run
  run_reserved containers id [] o h = h
  run_reserved containers id (c ∷ cs) o h =
      run_reserved containers id cs (call (recording env) id c o).0
        (reserved-Effect (call-Effect env containers id o c) h)

  pub reserved_refuses :
      (version command : Bytes) (capabilities : List Bytes) (options : List EmitterOption)
      (milliseconds : ℤ) (random : Option Bytes) (now : Bytes) (o : ProcessOutput (Recorded R))
      → o.emitter_created ≡ true
      → (e : EmitError) × (new_emitter
            (recording env)
            version
            command
            capabilities
            options
            milliseconds
            random
            now
            o
          ≡ (o, err e))
  unfolding new_emitter reserve
  reserved_refuses version command capabilities options milliseconds random now o h =
      elim (Either-cases (apply_options [] options)) [
        | inl (e, p) ↦ (e, ground arith)
        | inr (i, p) ↦ elim (Option-cases (check_capabilities capabilities)) [
          | inr (e, q) ↦ (e, ground arith)
          | inl q ↦ elim (Either-cases (choose_id i milliseconds random)) [
            | inl (e, c) ↦ (e, ground arith)
            | inr (chosen, c) ↦ (emitter_exists, ground arith)
          ]
        ]
      ]

-- What a call answers after the result.
abbrev pub late_error : Call → EmitError
late_error (emit_result_call now r) = result_already_emitted
late_error _ = event_after_result

module _ {R : Type 0} (env : Outside R) (operation_id : Bytes) where
  broken_call :
      (c : Call) (o : ProcessOutput R) (cause : Bytes)
      → o.write_err ≡ some cause
      → o.terminal ≡ false
      → call env operation_id c o ≡ (o, some (write_failed cause))
  unfolding call emit emit_warning emit_result reject_locked
  broken_call (emit_progress_call now e) o cause h t = ground arith
  broken_call _ o cause h t = ground arith

  run_broken :
      (cs : List Call) (o : ProcessOutput R) (cause : Bytes)
      → o.write_err ≡ some cause
      → o.terminal ≡ false
      → run env operation_id cs o ≡ o
  unfolding run
  run_broken [] o cause h t = refl
  run_broken (x ∷ cs) o cause h t = rw (broken_call x o cause h t) (run_broken cs o cause h t)

  late_call :
      (c : Call) (o : ProcessOutput R)
      → o.terminal ≡ true
      → call env operation_id c o ≡ (o, some (late_error c))
  unfolding call emit emit_warning emit_result reject_locked type_of
  late_call (emit_progress_call now e) o t = ground arith
  late_call _ o t = ground arith

  run_late :
      (cs : List Call) (o : ProcessOutput R) → o.terminal ≡ true → run env operation_id cs o ≡ o
  unfolding run
  run_late [] o t = refl
  run_late (x ∷ cs) o t = rw (late_call x o t) (run_late cs o t)

  -- Once a call has reported a failed write, whatever it was, every later call reports that failure and
  -- changes nothing: nothing more is rendered.
  pub write_error_sticks :
      (failing : Call) (cs : List Call) (c : Call) (o : ProcessOutput R) (cause : Bytes)
      → (call env operation_id failing o).1 ≡ some (write_failed cause)
      → (run env operation_id cs (call env operation_id failing o).0
          ≡ (call env operation_id failing o).0)
        × (call env operation_id c (call env operation_id failing o).0
            ≡ ((call env operation_id failing o).0, some (write_failed cause)))
  write_error_sticks failing cs c o cause h =
      let (e, t) = call-Torn env operation_id o failing cause h in
      (run_broken cs _ cause e t, broken_call c _ cause e t)

  -- Once a result has been emitted without an error, every later call is refused, a second result by an
  -- error of its own, and nothing changes: nothing more is rendered.
  pub result_is_final :
      (now : Bytes) (event : ResultEvent) (cs : List Call) (c : Call) (o : ProcessOutput R)
      → (emit_result env operation_id now event o).1 ≡ none
      → (run env operation_id cs (emit_result env operation_id now event o).0
          ≡ (emit_result env operation_id now event o).0)
        × (call env operation_id c (emit_result env operation_id now event o).0
            ≡ ((emit_result env operation_id now event o).0, some (late_error c)))
  result_is_final now event cs c o h =
      let t = emit_result_ends env operation_id o now event h in (run_late cs _ t, late_call c _ t)
