-- ===== src/Protocol/Lifecycle/Traces.antt =====
-- What holds of the lifecycle machine over every list of calls.
use auto_mas_runtime.Base.{
  ℕ, ◌+◌, ◌≤◌, ◌≡◌, ◌⊎◌, refl, ◌∙◌, Bool, true, false, ◌&&◌, Option, none, some, List, [], ◌∷◌, map,
  arith, if◌then◌else◌, ◌≢◌, is_none, is_none-eq, sym,
}
use auto_mas_runtime.Protocol.Lifecycle.{
  StateStatus, uninitialized, preparing_uv, syncing_repository, preparing_python,
  syncing_environment, ready_to_start, starting_backend, running, restarting, stopping_backend,
  environment_broken, backend_failed, stopped, other, LifecycleMachine, LifecycleError, fresh,
  transition, rollback_preparation, status_eq, new_lifecycle_machine, is_known_lifecycle_transition,
  is_known_state_status,
}
use auto_mas_runtime.Protocol.Lifecycle.Steps.{
  fresh_install, broken, ready, uv, repository, python, environment, ◌⟶◌, prepare, update, break,
  launch, serve, recover, stop, fail, transition-eq-none_iff, transition_effect,
}

-- The calls that may change a machine.
pub data Call : Type 0 where
  move : StateStatus → Call
  roll_back : Call

unfoldable pub call : LifecycleMachine → Call → LifecycleMachine × Option LifecycleError
call m (move next) = transition m next
call m roll_back = rollback_preparation m

-- The machine after all calls, refused ones included.
unfoldable pub run : LifecycleMachine → List Call → LifecycleMachine
run m [] = m
run m (c ∷ cs) = run (call m c).0 cs

-- 1 if the call is an accepted restart.
takes_restart : LifecycleMachine → Call → ℕ
takes_restart m roll_back = 0
takes_restart m (move next) =
    if status_eq m.current running && status_eq next restarting && is_none (transition m next).1
    then 1
    else 0

-- How many calls of the list are accepted restarts.
unfoldable pub restarts : LifecycleMachine → List Call → ℕ
unfolding takes_restart
restarts m [] = 0
restarts m (c ∷ cs) = takes_restart m c + restarts (call m c).0 cs

abbrev pub used : LifecycleMachine → ℕ
used m = if m.restart_used then 1 else 0

restart_was_free :
    (m : LifecycleMachine) (next : StateStatus)
    → (status_eq m.current running && status_eq next restarting && is_none (transition m next).1)
      ≡ true
    → m.restart_used ≡ false
unfolding transition
restart_was_free m next h = ground arith

used-call : (m : LifecycleMachine) (c : Call) → used (call m c).0 ≡ used m + takes_restart m c
unfolding call takes_restart rollback_preparation
used-call m (move next) = ground (arith, transition_effect m next, restart_was_free m next)
used-call m roll_back = ground arith

used-run : (m : LifecycleMachine) (cs : List Call) → used (run m cs) ≡ used m + restarts m cs
unfolding run restarts
used-run m [] = omega arith
used-run m (c ∷ cs) = omega (arith, used-run (call m c).0 cs, used-call m c)

-- However a machine is driven, it restarts the backend at most once, and `restart_used` tells
-- whether it did.
pub restart_at_most_once :
    (s : StateStatus) (m : LifecycleMachine) (cs : List Call)
    → new_lifecycle_machine s ≡ some m
    → (restarts m cs ≤ 1) × (used (run m cs) ≡ restarts m cs)
unfolding new_lifecycle_machine
restart_at_most_once s m cs h = ground (arith, used-run m cs)

abbrev pub IsTerminal : LifecycleMachine → Type 0
IsTerminal m = (m.current ≡ backend_failed) ⊎ (m.current ≡ stopped)

call_terminal : (m : LifecycleMachine) (c : Call) → IsTerminal m → (call m c).0 ≡ m
unfolding call transition rollback_preparation
call_terminal m (move next) h = ground arith
call_terminal m roll_back h = ground arith

-- `stopped` and `backend_failed` are final: no list of calls changes a machine that is there.
pub terminal_absorbs : (m : LifecycleMachine) (cs : List Call) → IsTerminal m → run m cs ≡ m
unfolding run
terminal_absorbs m [] h = refl
terminal_absorbs m (c ∷ cs) h = rw (call_terminal m c h) (terminal_absorbs m cs h)

-- The states after a backend was running.
abbrev launched : StateStatus → Bool
launched running = true
launched restarting = true
launched stopping_backend = true
launched backend_failed = true
launched stopped = true
launched _ = false

launched-⟶ : {a b : StateStatus} → a ⟶ b → launched a ≡ true → launched b ≡ true
launched-⟶ (prepare fresh_install) h = h
launched-⟶ (prepare broken) h = h
launched-⟶ (prepare ready) h = h
launched-⟶ (update fresh_install) h = h
launched-⟶ (update broken) h = h
launched-⟶ (update ready) h = h
launched-⟶ (break uv) h = h
launched-⟶ (break repository) h = h
launched-⟶ (break python) h = h
launched-⟶ (break environment) h = h
launched-⟶ launch h = h
launched-⟶ serve h = refl
launched-⟶ recover h = refl
launched-⟶ (stop l) h = refl
launched-⟶ (fail l) h = refl
launched-⟶ _ h = h

-- A machine keeps its start state, and has used its restart only after the backend was running.
record Inv (s : StateStatus) (m : LifecycleMachine) : Type 0 where
  started : m.initial ≡ s
  late : m.restart_used ≡ true → launched m.current ≡ true

launched_after :
    (m : LifecycleMachine) (next : StateStatus)
    → is_none (transition m next).1 ≡ true
    → launched m.current ≡ true
    → launched next ≡ true
launched_after m next h l =
    launched-⟶ ((transition-eq-none_iff m next).0 (is_none-eq (transition m next).1 h)).0 l

restarting_launched : (next : StateStatus) → status_eq next restarting ≡ true → launched next ≡ true
unfolding status_eq
restarting_launched next h = ground arith

call-Inv : (s : StateStatus) (m : LifecycleMachine) (c : Call) → Inv s m → Inv s (call m c).0
unfolding call rollback_preparation
call-Inv s m (move next) h =
    ground (arith, transition_effect m next, launched_after m next, restarting_launched next)
call-Inv s m roll_back h = ground arith

run-Inv : (s : StateStatus) (m : LifecycleMachine) (cs : List Call) → Inv s m → Inv s (run m cs)
unfolding run
run-Inv s m [] h = h
run-Inv s m (c ∷ cs) h = run-Inv s (call m c).0 cs (call-Inv s m c h)

new-Inv : (s : StateStatus) {m : LifecycleMachine} → new_lifecycle_machine s ≡ some m → Inv s m
unfolding new_lifecycle_machine
new-Inv s h = ground arith

new-fresh :
    (s : StateStatus) {m : LifecycleMachine} → new_lifecycle_machine s ≡ some m → m ≡ fresh s
unfolding new_lifecycle_machine
new-fresh s h = ground arith

rollback_fresh :
    (s : StateStatus) (m : LifecycleMachine)
    → Inv s m
    → (rollback_preparation m).1 ≡ none
    → (rollback_preparation m).0 ≡ fresh s
unfolding rollback_preparation
rollback_fresh s m h = ground (arith, h.late)

-- After any calls, a rollback that is accepted gives back the machine as it was made.
pub rollback_restores :
    (s : StateStatus) (m : LifecycleMachine) (cs : List Call)
    → new_lifecycle_machine s ≡ some m
    → (rollback_preparation (run m cs)).1 ≡ none
    → (rollback_preparation (run m cs)).0 ≡ m
rollback_restores s m cs h r =
    rollback_fresh s (run m cs) (run-Inv s m cs (new-Inv s h)) r ∙ sym (new-fresh s h)

-- The requests that take a machine from a state to `stopped`.
way_to_stopped : StateStatus → List StateStatus
way_to_stopped uninitialized =
    preparing_uv ∷ preparing_python ∷ syncing_environment ∷ ready_to_start ∷ starting_backend
    ∷ stopping_backend ∷ stopped ∷ []
way_to_stopped preparing_uv =
    preparing_python ∷ syncing_environment ∷ ready_to_start ∷ starting_backend ∷ stopping_backend
    ∷ stopped ∷ []
way_to_stopped syncing_repository =
    preparing_python ∷ syncing_environment ∷ ready_to_start ∷ starting_backend ∷ stopping_backend
    ∷ stopped ∷ []
way_to_stopped preparing_python =
    syncing_environment ∷ ready_to_start ∷ starting_backend ∷ stopping_backend ∷ stopped ∷ []
way_to_stopped environment_broken =
    syncing_environment ∷ ready_to_start ∷ starting_backend ∷ stopping_backend ∷ stopped ∷ []
way_to_stopped syncing_environment =
    ready_to_start ∷ starting_backend ∷ stopping_backend ∷ stopped ∷ []
way_to_stopped ready_to_start = starting_backend ∷ stopping_backend ∷ stopped ∷ []
way_to_stopped starting_backend = stopping_backend ∷ stopped ∷ []
way_to_stopped running = stopping_backend ∷ stopped ∷ []
way_to_stopped restarting = stopping_backend ∷ stopped ∷ []
way_to_stopped stopping_backend = stopped ∷ []
way_to_stopped _ = []

abbrev at_state : StateStatus → StateStatus → Bool → LifecycleMachine
at_state i s u = record { initial = i; current = s; restart_used = u }

way-at_state :
    (i s : StateStatus) (u : Bool)
    → is_known_state_status s ≡ true
    → (s ≡ backend_failed → ⊥)
    → (run (at_state i s u) (map move (way_to_stopped s))).current ≡ stopped
unfolding run call transition way_to_stopped is_known_state_status is_known_lifecycle_transition
    status_eq
way-at_state i (other x) u k h = ground arith
way-at_state i backend_failed u k h = absurd (h refl)
way-at_state i _ u k h = refl

-- From every known state but `backend_failed` some calls lead to `stopped`: the lifecycle has no
-- other dead end, whether or not the restart is used.
pub can_stop :
    (m : LifecycleMachine)
    → is_known_state_status m.current ≡ true
    → m.current ≢ backend_failed
    → (cs : List Call) × ((run m cs).current ≡ stopped)
can_stop m k h =
    (map move (way_to_stopped m.current), way-at_state m.initial m.current m.restart_used k h)
