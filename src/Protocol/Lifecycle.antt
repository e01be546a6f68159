-- ===== src/Protocol/Lifecycle.antt =====
-- internal/protocol/lifecycle.go, and the lifecycle states of values.go. A method that changes the
-- machine returns the new record; its error is an `Option LifecycleError`, one constructor for each
-- message. The mutex makes each call one atomic step, so the calls of several goroutines are a
-- list of calls.
pub mod Steps
pub mod Traces
mod Tests
use mathlib.Core.Bool.{decide}
use auto_mas_runtime.Base.{
  Bool, true, false, not, ◌&&◌, ◌||◌, List, [], ◌∷◌, Option, none, some, Bytes, any, if◌then◌else◌,
  ℕ_discrete,
}

-- A `StateStatus` is a string: one of the constants, or any other text.
pub data StateStatus : Type 0 where
  uninitialized preparing_uv syncing_repository preparing_python syncing_environment : StateStatus
  ready_to_start starting_backend running restarting stopping_backend : StateStatus
  environment_broken backend_failed stopped : StateStatus
  other : Bytes → StateStatus

StateStatus-discrete : Discrete StateStatus
StateStatus-discrete = hlevel ℕ_discrete

-- `==` on states.
unfoldable pub status_eq : StateStatus → StateStatus → Bool
unfolding StateStatus-discrete ℕ_discrete decide
status_eq a b = decide (StateStatus-discrete a b)

unfoldable pub state_statuses : List StateStatus
state_statuses =
    uninitialized ∷ preparing_uv ∷ syncing_repository ∷ preparing_python ∷ syncing_environment
    ∷ ready_to_start ∷ starting_backend ∷ running ∷ restarting ∷ stopping_backend
    ∷ environment_broken ∷ backend_failed ∷ stopped ∷ []

unfoldable pub is_known_state_status : StateStatus → Bool
unfolding state_statuses status_eq
is_known_state_status value = any (λ s. status_eq s value) state_statuses

pub record LifecycleTransition : Type 0 where
  pub from : StateStatus
  pub to : StateStatus

abbrev pub edge : StateStatus → StateStatus → LifecycleTransition
edge a b = record { from = a; to = b }

unfoldable pub lifecycle_transitions : List LifecycleTransition
lifecycle_transitions =
    edge uninitialized preparing_uv
    ∷ edge environment_broken preparing_uv
    ∷ edge ready_to_start preparing_uv
    ∷ edge environment_broken syncing_environment
    ∷ edge ready_to_start syncing_environment
    ∷ edge uninitialized syncing_repository
    ∷ edge environment_broken syncing_repository
    ∷ edge ready_to_start syncing_repository
    ∷ edge preparing_uv syncing_repository
    ∷ edge preparing_uv preparing_python
    ∷ edge preparing_uv environment_broken
    ∷ edge syncing_repository preparing_python
    ∷ edge syncing_repository environment_broken
    ∷ edge preparing_python syncing_environment
    ∷ edge preparing_python environment_broken
    ∷ edge syncing_environment ready_to_start
    ∷ edge syncing_environment environment_broken
    ∷ edge ready_to_start starting_backend
    ∷ edge starting_backend running
    ∷ edge starting_backend stopping_backend
    ∷ edge starting_backend backend_failed
    ∷ edge running stopping_backend
    ∷ edge running restarting
    ∷ edge running backend_failed
    ∷ edge restarting running
    ∷ edge restarting stopping_backend
    ∷ edge restarting backend_failed
    ∷ edge stopping_backend stopped
    ∷ edge stopping_backend backend_failed
    ∷ []

unfoldable pub is_known_lifecycle_transition : StateStatus → StateStatus → Bool
unfolding lifecycle_transitions status_eq
is_known_lifecycle_transition from to =
    any (λ t. status_eq t.from from && status_eq t.to to) lifecycle_transitions

pub record LifecycleMachine : Type 0 where
  pub initial : StateStatus
  pub current : StateStatus
  pub restart_used : Bool

pub data LifecycleError : Type 0 where
  invalid_initial cannot_roll_back unknown_state terminal_state self_loop : LifecycleError
  edge_not_allowed restart_already_used restart_required : LifecycleError

abbrev pub fresh : StateStatus → LifecycleMachine
fresh s = record { initial = s; current = s; restart_used = false }

-- `NewLifecycleMachine`; `none` is its only error, `invalid_initial`.
unfoldable pub new_lifecycle_machine : StateStatus → Option LifecycleMachine
new_lifecycle_machine uninitialized = some (fresh uninitialized)
new_lifecycle_machine environment_broken = some (fresh environment_broken)
new_lifecycle_machine ready_to_start = some (fresh ready_to_start)
new_lifecycle_machine _ = none

can_roll_back : StateStatus → Bool
can_roll_back preparing_uv = true
can_roll_back syncing_repository = true
can_roll_back _ = false

unfoldable pub rollback_preparation : LifecycleMachine → LifecycleMachine × Option LifecycleError
unfolding can_roll_back
rollback_preparation m =
    if can_roll_back m.current
    then (record m { current = m.initial }, none)
    else (m, some cannot_roll_back)

-- The guards of `Transition` from the restart on: `restartUsed` is set before the last guard.
restart_guards : LifecycleMachine → StateStatus → LifecycleMachine × Option LifecycleError
unfolding status_eq
restart_guards m next =
    if status_eq m.current running && status_eq next restarting
    then (if m.restart_used
        then (m, some restart_already_used)
        else (record m { restart_used = true; current = next }, none))
    else if status_eq m.current running && status_eq next backend_failed && not m.restart_used
    then (m, some restart_required)
    else (record m { current = next }, none)

unfoldable pub transition :
    LifecycleMachine → StateStatus → LifecycleMachine × Option LifecycleError
unfolding restart_guards status_eq
transition m next =
    if not (is_known_state_status m.current) || not (is_known_state_status next)
    then (m, some unknown_state)
    else if status_eq m.current backend_failed || status_eq m.current stopped
    then (m, some terminal_state)
    else if status_eq m.current next
    then (m, some self_loop)
    else if not (is_known_lifecycle_transition m.current next)
    then (m, some edge_not_allowed)
    else restart_guards m next
