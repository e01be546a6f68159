-- ===== src/Protocol/Lifecycle/Tests.antt =====
-- Runs of the lifecycle machine, and the theorems at them.
use auto_mas_runtime.Base.{
  ◌≤◌, ◌≡◌, ◌↔◌, inl, refl, true, false, none, List, [], ◌∷◌, ◌&&◌, ◌||◌, is_none,
}
use auto_mas_runtime.Protocol.Lifecycle.{
  preparing_uv, syncing_repository, ready_to_start, starting_backend, running, restarting,
  backend_failed, stopped, LifecycleMachine, fresh, transition, rollback_preparation, status_eq,
  new_lifecycle_machine, is_known_state_status, is_known_lifecycle_transition,
}
use auto_mas_runtime.Protocol.Lifecycle.Steps.{
  ◌⟶◌, RestartAllowed, transition-eq-none_iff, transition_effect,
}
use auto_mas_runtime.Protocol.Lifecycle.Traces.{
  Call, move, call, run, restarts, used, restart_at_most_once, terminal_absorbs, rollback_restores,
  can_stop,
}

abbrev ready : LifecycleMachine
ready = fresh ready_to_start

abbrev serving : LifecycleMachine
serving = record { initial = ready_to_start; current = running; restart_used = false }

transition-eq-none_iff_example :
    ((transition serving backend_failed).1 ≡ none)
    ↔ ((running ⟶ backend_failed) × RestartAllowed serving backend_failed)
transition-eq-none_iff_example = transition-eq-none_iff serving backend_failed

transition_effect_example :
    (is_none (transition serving restarting).1 ≡ true
      → (transition serving restarting).0 ≡ record serving {
        current = restarting;
        restart_used =
            serving.restart_used
            || status_eq serving.current running && status_eq restarting restarting;
      })
    × (is_none (transition serving restarting).1 ≡ false
        → (transition serving restarting).0 ≡ serving)
transition_effect_example = transition_effect serving restarting

abbrev crashes : List Call
crashes =
    move starting_backend
    ∷ move running
    ∷ move backend_failed
    ∷ move restarting
    ∷ move running
    ∷ move restarting
    ∷ move backend_failed
    ∷ []

-- The first failure is refused, since the restart is still to be used; the second is final.
crashes_end :
    run ready crashes
    ≡ record { initial = ready_to_start; current = backend_failed; restart_used = true }
unfolding run call transition is_known_state_status is_known_lifecycle_transition
crashes_end = refl

restart_at_most_once_example :
    (restarts ready crashes ≤ 1) × (used (run ready crashes) ≡ restarts ready crashes)
unfolding new_lifecycle_machine
restart_at_most_once_example = restart_at_most_once ready_to_start ready crashes refl

terminal_absorbs_example : run (run ready crashes) crashes ≡ run ready crashes
terminal_absorbs_example = terminal_absorbs (run ready crashes) crashes (rw crashes_end (inl refl))

abbrev update : List Call
update = move preparing_uv ∷ move syncing_repository ∷ []

rollback_restores_example : (rollback_preparation (run ready update)).0 ≡ ready
unfolding new_lifecycle_machine run call transition rollback_preparation is_known_state_status
    is_known_lifecycle_transition
rollback_restores_example = rollback_restores ready_to_start ready update refl refl

can_stop_example : (cs : List Call) × ((run serving cs).current ≡ stopped)
unfolding is_known_state_status
can_stop_example = can_stop serving refl (λ e. cc)
