-- ===== src/State/Stage.antt =====
-- internal/protocol/values.go: the stages of a command, and the groups of them that
-- internal/state/transaction.go names.
use mathlib.Core.Bool.{decide, decide_iff}
use auto_mas_runtime.Base.{◌≡◌, ◌↔◌, Bool, true, false, ◌||◌, List, [], ◌∷◌, Bytes, any, ℕ_discrete}

-- A `Stage` is a string: one of the constants, or any other text.
pub data Stage : Type 0 where
  runtime_handshake doctor bootstrap repair cleanup network_probe : Stage
  uv_check uv_download uv_verify : Stage
  workspace_check workspace_clone workspace_verify workspace_swap workspace_cleanup : Stage
  python_check python_install : Stage
  dependencies_check dependencies_sync dependencies_rebuild : Stage
  backend_spawn backend_health backend_run backend_restart backend_shutdown backend_cleanup : Stage
  other_stage : Bytes → Stage

Stage-discrete : Discrete Stage
Stage-discrete = hlevel ℕ_discrete

unfoldable pub stage_eq : Stage → Stage → Bool
unfolding Stage-discrete ℕ_discrete decide
stage_eq a b = decide (Stage-discrete a b)

abbrev pub stages : List Stage
stages =
    runtime_handshake ∷ doctor ∷ bootstrap ∷ repair ∷ cleanup ∷ network_probe ∷ uv_check
    ∷ uv_download ∷ uv_verify ∷ workspace_check ∷ workspace_clone ∷ workspace_verify
    ∷ workspace_swap ∷ workspace_cleanup ∷ python_check ∷ python_install ∷ dependencies_check
    ∷ dependencies_sync ∷ dependencies_rebuild ∷ backend_spawn ∷ backend_health ∷ backend_run
    ∷ backend_restart ∷ backend_shutdown ∷ backend_cleanup ∷ []

unfoldable pub is_known_stage : Stage → Bool
is_known_stage value = any (λ s. stage_eq s value) stages

unfoldable pub uv_stage : Stage → Bool
uv_stage uv_check = true
uv_stage uv_download = true
uv_stage uv_verify = true
uv_stage _ = false

unfoldable pub workspace_mutation_stage : Stage → Bool
workspace_mutation_stage workspace_clone = true
workspace_mutation_stage workspace_verify = true
workspace_mutation_stage workspace_swap = true
workspace_mutation_stage workspace_cleanup = true
workspace_mutation_stage _ = false

abbrev pub workspace_stage : Stage → Bool
workspace_stage stage = stage_eq stage workspace_check || workspace_mutation_stage stage

abbrev pub python_stage : Stage → Bool
python_stage stage = stage_eq stage python_check || stage_eq stage python_install

unfoldable pub dependency_stage : Stage → Bool
dependency_stage dependencies_check = true
dependency_stage dependencies_sync = true
dependency_stage dependencies_rebuild = true
dependency_stage _ = false

unfoldable pub backend_stage : Stage → Bool
backend_stage backend_spawn = true
backend_stage backend_health = true
backend_stage backend_run = true
backend_stage backend_restart = true
backend_stage backend_shutdown = true
backend_stage backend_cleanup = true
backend_stage _ = false

pub stage_eq_iff : (a b : Stage) → (stage_eq a b ≡ true) ↔ (a ≡ b)
unfolding stage_eq
stage_eq_iff a b = decide_iff (Stage-discrete a b)
