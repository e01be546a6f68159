-- ===== src/Protocol/Lifecycle/Steps.antt =====
-- One call of the lifecycle machine: which transitions it accepts, and what a refusal leaves.
use auto_mas_runtime.Base.{◌≡◌, ◌↔◌, refl, true, false, none, arith, ◌&&◌, ◌||◌, is_none}
use auto_mas_runtime.Protocol.Lifecycle.{
  StateStatus, uninitialized, preparing_uv, syncing_repository, preparing_python,
  syncing_environment, ready_to_start, starting_backend, running, restarting, stopping_backend,
  environment_broken, backend_failed, stopped, LifecycleMachine, transition,
  is_known_lifecycle_transition, is_known_state_status, status_eq,
}

-- The states that are persisted, and in which a machine may start.
pub data IsStable : StateStatus → Type 0 where
  fresh_install : IsStable uninitialized
  broken : IsStable environment_broken
  ready : IsStable ready_to_start

-- The states of an environment that is being prepared.
pub data IsPreparing : StateStatus → Type 0 where
  uv : IsPreparing preparing_uv
  repository : IsPreparing syncing_repository
  python : IsPreparing preparing_python
  environment : IsPreparing syncing_environment

-- The states in which a backend process may exist and is not being stopped.
pub data IsLive : StateStatus → Type 0 where
  starting : IsLive starting_backend
  serving : IsLive running
  again : IsLive restarting

-- The lifecycle, by what each edge means.
infix 40 ◌⟶◌
pub data ◌⟶◌ : StateStatus → StateStatus → Type 0 where
  prepare : {s : StateStatus} → IsStable s → s ⟶ preparing_uv
  update : {s : StateStatus} → IsStable s → s ⟶ syncing_repository
  resync_broken : environment_broken ⟶ syncing_environment
  resync_ready : ready_to_start ⟶ syncing_environment
  fetch : preparing_uv ⟶ syncing_repository
  skip_fetch : preparing_uv ⟶ preparing_python
  install : syncing_repository ⟶ preparing_python
  sync : preparing_python ⟶ syncing_environment
  finish : syncing_environment ⟶ ready_to_start
  break : {s : StateStatus} → IsPreparing s → s ⟶ environment_broken
  launch : ready_to_start ⟶ starting_backend
  serve : starting_backend ⟶ running
  restart : running ⟶ restarting
  recover : restarting ⟶ running
  stop : {s : StateStatus} → IsLive s → s ⟶ stopping_backend
  fail : {s : StateStatus} → IsLive s → s ⟶ backend_failed
  fail_stop : stopping_backend ⟶ backend_failed
  end : stopping_backend ⟶ stopped

ruleset edges = (
  prepare, update, resync_broken, resync_ready, fetch, skip_fetch, install, sync, finish, break,
  launch, serve, restart, recover, stop, fail, fail_stop, end,
)

ruleset parts =
    (fresh_install, broken, ready, uv, repository, python, environment, starting, serving, again)

edge_of_known : (a b : StateStatus) → is_known_lifecycle_transition a b ≡ true → a ⟶ b
unfolding is_known_lifecycle_transition
edge_of_known uninitialized b h = grind (arith, edges, parts)
edge_of_known _ b h = grind (arith, edges, parts)

known_of_edge : {a b : StateStatus} → a ⟶ b → is_known_lifecycle_transition a b ≡ true
unfolding is_known_lifecycle_transition
known_of_edge (prepare fresh_install) = refl
known_of_edge (prepare broken) = refl
known_of_edge (prepare ready) = refl
known_of_edge (update fresh_install) = refl
known_of_edge (update broken) = refl
known_of_edge (update ready) = refl
known_of_edge (break uv) = refl
known_of_edge (break repository) = refl
known_of_edge (break python) = refl
known_of_edge (break environment) = refl
known_of_edge (stop starting) = refl
known_of_edge (stop serving) = refl
known_of_edge (stop again) = refl
known_of_edge (fail starting) = refl
known_of_edge (fail serving) = refl
known_of_edge (fail again) = refl
known_of_edge _ = refl

-- What guards the edges out of `running`: the restart is taken once, and before a failure.
pub record RestartAllowed (m : LifecycleMachine) (next : StateStatus) : Type 0 where
  pub once : m.current ≡ running → next ≡ restarting → m.restart_used ≡ false
  pub before_failure : m.current ≡ running → next ≡ backend_failed → m.restart_used ≡ true

known_from :
    (a b : StateStatus) → is_known_lifecycle_transition a b ≡ true → is_known_state_status a ≡ true
unfolding is_known_lifecycle_transition is_known_state_status
known_from a b h = ground arith

known_to :
    (a b : StateStatus) → is_known_lifecycle_transition a b ≡ true → is_known_state_status b ≡ true
unfolding is_known_lifecycle_transition is_known_state_status
known_to a b h = ground arith

known_source :
    (a b : StateStatus)
    → is_known_lifecycle_transition a b ≡ true
    → (status_eq a backend_failed ≡ false) × (status_eq a stopped ≡ false) × (status_eq a b ≡ false)
unfolding is_known_lifecycle_transition
known_source a b h = ground arith

accepted_known :
    (m : LifecycleMachine) (next : StateStatus)
    → (transition m next).1 ≡ none
    → is_known_lifecycle_transition m.current next ≡ true
unfolding transition
accepted_known m next h = ground arith

accepted_guards :
    (m : LifecycleMachine) (next : StateStatus)
    → (transition m next).1 ≡ none
    → RestartAllowed m next
unfolding transition
accepted_guards m next h = ground arith

guarded_accepted :
    (m : LifecycleMachine) (next : StateStatus)
    → is_known_lifecycle_transition m.current next ≡ true
    → RestartAllowed m next
    → (transition m next).1 ≡ none
unfolding transition
guarded_accepted m next h g = ground (
  arith,
  known_from m.current next h,
  known_to m.current next h,
  known_source m.current next h,
  g.once,
  g.before_failure,
)

-- `Transition` accepts exactly the edges of the lifecycle whose restart guards hold.
pub transition-eq-none_iff :
    (m : LifecycleMachine) (next : StateStatus)
    → ((transition m next).1 ≡ none) ↔ ((m.current ⟶ next) × RestartAllowed m next)
transition-eq-none_iff m next = (
  λ h. (edge_of_known m.current next (accepted_known m next h), accepted_guards m next h),
  λ h. guarded_accepted m next (known_of_edge h.0) h.1,
)

-- A refused transition leaves the machine as it was; an accepted one moves it to `next`, keeps
-- `initial`, and records the use of the restart exactly on the edge from `running` to `restarting`.
pub transition_effect :
    (m : LifecycleMachine) (next : StateStatus)
    → (is_none (transition m next).1 ≡ true
        → (transition m next).0 ≡ record m {
          current = next;
          restart_used = m.restart_used || status_eq m.current running && status_eq next restarting;
        })
      × (is_none (transition m next).1 ≡ false → (transition m next).0 ≡ m)
unfolding transition
transition_effect m next = ground arith
