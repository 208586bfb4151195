-- ===== src/Agent/RunStatus.antt =====
-- agent/state/models.py: `RunStatus`, `RUN_TRANSITIONS` and `assert_run_transition`.
pub mod Graph
mod Tests
use jake_ai.Prelude.{
  Bool, List, Result, String, [], err, false, if◌then◌else◌, ite, not, ok, true, value_error, ◌||◌,
  ◌∷◌,
}

pub data RunStatus : Type 0 where
  created planning ready running executing paused_approval waiting_approval : RunStatus
  verifying replanning completed failed cancelled rejected timeout : RunStatus

pub RunStatus-discrete : Discrete RunStatus
RunStatus-discrete = hlevel

-- `current == target`
unfoldable pub same_status : RunStatus → RunStatus → Bool
same_status a b = ite (RunStatus-discrete a b) true false

-- `RunStatus.is_terminal`
unfoldable pub is_terminal : RunStatus → Bool
is_terminal completed = true
is_terminal failed = true
is_terminal cancelled = true
is_terminal rejected = true
is_terminal timeout = true
is_terminal _ = false

-- `RunStatus.is_success`
unfoldable pub is_success : RunStatus → Bool
is_success completed = true
is_success _ = false

-- `status.value`
unfoldable pub status_value : RunStatus → String
status_value created = "created"
status_value planning = "planning"
status_value ready = "ready"
status_value running = "running"
status_value executing = "executing"
status_value paused_approval = "paused_approval"
status_value waiting_approval = "waiting_approval"
status_value verifying = "verifying"
status_value replanning = "replanning"
status_value completed = "completed"
status_value failed = "failed"
status_value cancelled = "cancelled"
status_value rejected = "rejected"
status_value timeout = "timeout"

-- `RUN_TRANSITIONS.get(current, frozenset())`
unfoldable pub run_transitions : RunStatus → List RunStatus
run_transitions created = planning ∷ ready ∷ running ∷ failed ∷ cancelled ∷ []
run_transitions planning = ready ∷ running ∷ failed ∷ cancelled ∷ []
run_transitions ready = running ∷ executing ∷ failed ∷ cancelled ∷ []
run_transitions running =
    executing ∷ waiting_approval ∷ paused_approval ∷ verifying ∷ completed ∷ failed ∷ cancelled
    ∷ rejected ∷ timeout ∷ []
run_transitions executing =
    running ∷ waiting_approval ∷ paused_approval ∷ verifying ∷ completed ∷ failed ∷ cancelled
    ∷ rejected ∷ timeout ∷ []
run_transitions waiting_approval = running ∷ executing ∷ rejected ∷ cancelled ∷ failed ∷ []
run_transitions paused_approval = running ∷ executing ∷ rejected ∷ cancelled ∷ failed ∷ []
run_transitions verifying =
    completed ∷ replanning ∷ planning ∷ running ∷ failed ∷ rejected ∷ cancelled ∷ []
run_transitions replanning = planning ∷ ready ∷ running ∷ executing ∷ failed ∷ cancelled ∷ []
run_transitions _ = []

-- `target in transitions`
unfoldable pub mem_status : RunStatus → List RunStatus → Bool
unfolding same_status
mem_status s [] = false
mem_status s (x ∷ xs) = same_status x s || mem_status s xs

unfoldable pub assert_run_transition : RunStatus → RunStatus → Result (Unit {0})
unfolding same_status is_terminal run_transitions mem_status
assert_run_transition current target =
    if same_status current target
    then ok tt
    else if is_terminal current
    then err value_error
    else if not (mem_status target (run_transitions current))
    then err value_error
    else ok tt
