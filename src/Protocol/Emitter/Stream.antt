-- ===== src/Protocol/Emitter/Stream.antt =====
-- The output stream of one operation: numbering, first and last event, and the ledger of warnings.
use mathlib.Core.List.{append-nil}
use auto_mas_runtime.Base.{
  ℕ, ◌+◌, ◌≡◌, refl, ap, ◌∙◌, sym, false, List, [], ◌∷◌, ◌++◌, Option, none, some, Bytes, arith,
  length, take, All, take-append_one, length-append, All-append,
}
use auto_mas_runtime.Protocol.Event.{type_hello, Event, WarningSummary}
use auto_mas_runtime.Protocol.Emitter.{
  ProcessOutput, Outside, is_result, u64, max_result_warning_summaries,
}
use auto_mas_runtime.Protocol.Emitter.Session.{Call, call, run}
use auto_mas_runtime.Protocol.Emitter.Recording.{Recorded, recording, Sent, Kept}
use auto_mas_runtime.Protocol.Emitter.Effect.{
  warning_of, ledger_after, count_after, Effect, kept, sent, KeepsContainers, call-Effect,
}

-- The events are numbered on from `n`, as `uint64` counts.
abbrev pub Numbered : ℕ → List Event → Type 0
Numbered n [] = Unit
Numbered n (e ∷ es) = (e.common.sequence ≡ u64 n) × Numbered (n + 1) es

abbrev pub NotResult : Event → Type 0
NotResult e = is_result e.common.event_type ≡ false

-- No event before the last is a result.
abbrev pub ResultLast : List Event → Type 0
ResultLast [] = Unit
ResultLast (e ∷ []) = Unit
ResultLast (e ∷ f ∷ es) = NotResult e × ResultLast (f ∷ es)

-- The stream begins with `hello`.
abbrev pub HelloFirst : List Event → Type 0
HelloFirst [] = ⊥
HelloFirst (e ∷ es) = e.common.event_type ≡ type_hello

cons_warning : Option WarningSummary → List WarningSummary → List WarningSummary
cons_warning none l = l
cons_warning (some w) l = w ∷ l

-- The warnings that a stream reports, in order.
unfoldable pub warnings_of : List Event → List WarningSummary
unfolding cons_warning
warnings_of [] = []
warnings_of (e ∷ es) = cons_warning (warning_of e.payload) (warnings_of es)

pub record Inv {R : Type 0} (operation_id : Bytes) (o : ProcessOutput (Recorded R)) : Type 0 where
  pub numbered : Numbered 1 o.renderer.delivered
  pub next : o.next_sequence ≡ u64 (length o.renderer.delivered + 1)
  pub addressed : All (λ e. e.common.operation_id ≡ operation_id) o.renderer.delivered
  pub still_open : o.terminal ≡ false → All NotResult o.renderer.delivered
  pub result_last : ResultLast o.renderer.delivered
  pub ledger : o.warnings ≡ take max_result_warning_summaries (warnings_of o.renderer.delivered)
  pub counted : o.warning_count ≡ u64 (length (warnings_of o.renderer.delivered))
  pub hello_first : HelloFirst o.renderer.delivered

Numbered-append :
    (n : ℕ) (l : List Event) (e : Event)
    → Numbered n l
    → e.common.sequence ≡ u64 (length l + n)
    → Numbered n (l ++ e ∷ [])
Numbered-append n [] e h p = (p ∙ ap u64 (omega arith), tt)
Numbered-append n (x ∷ l) e h p = (h.0, Numbered-append (n + 1) l e h.1 (p ∙ ap u64 (omega arith)))

ResultLast-append : (l : List Event) (e : Event) → All NotResult l → ResultLast (l ++ e ∷ [])
ResultLast-append [] e h = tt
ResultLast-append (x ∷ []) e h = (h.0, tt)
ResultLast-append (x ∷ y ∷ l) e h = (h.0, ResultLast-append (y ∷ l) e h.1)

HelloFirst-append : (l : List Event) (e : Event) → HelloFirst l → HelloFirst (l ++ e ∷ [])
HelloFirst-append [] e h = absurd h
HelloFirst-append (x ∷ l) e h = h

warnings_of-append :
    (l : List Event) (e : Event)
    → warnings_of (l ++ e ∷ []) ≡ warnings_of l ++ cons_warning (warning_of e.payload) []
unfolding warnings_of
warnings_of-append [] e = refl
warnings_of-append (x ∷ l) e = ground (arith, warnings_of-append l e)

ledger_step :
    (l : List WarningSummary) (w : Option WarningSummary)
    → ledger_after (take max_result_warning_summaries l) w
      ≡ take max_result_warning_summaries (l ++ cons_warning w [])
unfolding cons_warning
ledger_step l none = rw append-nil
ledger_step l (some w) = sym (take-append_one max_result_warning_summaries l w)

count_step :
    (l : List WarningSummary) (w : Option WarningSummary)
    → count_after (u64 (length l)) w ≡ u64 (length (l ++ cons_warning w []))
unfolding cons_warning
count_step l none = rw append-nil
count_step l (some w) = rw length-append (omega arith)

module _ {R : Type 0} {operation_id : Bytes} {o o' : ProcessOutput (Recorded R)} where
  Kept-Inv : Kept o o' → Inv operation_id o → Inv operation_id o'
  Kept-Inv k h = record {
    numbered = rw k.delivery h.numbered;
    next = rw (k.delivery, k.counted) h.next;
    addressed = rw k.delivery h.addressed;
    still_open = λ t. rw k.delivery (h.still_open (sym k.ended ∙ t));
    result_last = rw k.delivery h.result_last;
    ledger = rw (k.delivery, k.warned) h.ledger;
    counted = rw (k.delivery, k.warnings_counted) h.counted;
    hello_first = rw k.delivery h.hello_first;
  }

  Sent-Inv :
      (event : Event)
      → event.common.operation_id ≡ operation_id
      → Sent o o' event
      → o'.warnings ≡ ledger_after o.warnings (warning_of event.payload)
      → o'.warning_count ≡ count_after o.warning_count (warning_of event.payload)
      → Inv operation_id o
      → Inv operation_id o'
  Sent-Inv event a s w n h =
      let l = o.renderer.delivered in
      let before = h.still_open s.was_open in
      record {
        numbered = rw s.delivery (Numbered-append 1 l event h.numbered (s.number ∙ h.next));
        next = rw (s.delivery, s.counted, h.next, length-append l (event ∷ [])) (omega arith);
        addressed = rw s.delivery (
            All-append (λ e. e.common.operation_id ≡ operation_id) l (event ∷ []) h.addressed
              (a, tt));
        still_open =
            λ t. rw s.delivery (All-append NotResult l (event ∷ []) before (sym s.ended ∙ t, tt));
        result_last = rw s.delivery (ResultLast-append l event before);
        ledger =
            rw (s.delivery, w, h.ledger, warnings_of-append l event)
              (ledger_step (warnings_of l) (warning_of event.payload));
        counted =
            rw (s.delivery, n, h.counted, warnings_of-append l event)
              (count_step (warnings_of l) (warning_of event.payload));
        hello_first = rw s.delivery (HelloFirst-append l event h.hello_first);
      }

  Effect-Inv : Effect operation_id o o' → Inv operation_id o → Inv operation_id o'
  Effect-Inv (kept k) h = Kept-Inv k h
  Effect-Inv (sent e a s w n) h = Sent-Inv e a s w n h

module _ {R : Type 0} (env : Outside R) (containers : KeepsContainers env)
    (operation_id : Bytes) where
  -- Every call of an operation keeps the shape of the stream.
  pub run-Inv :
      (cs : List Call) (o : ProcessOutput (Recorded R))
      → Inv operation_id o
      → Inv operation_id (run (recording env) operation_id cs o)
  unfolding run
  run-Inv [] o h = h
  run-Inv (c ∷ cs) o h =
      run-Inv cs (call (recording env) operation_id c o).0
        (Effect-Inv (call-Effect env containers operation_id o c) h)
