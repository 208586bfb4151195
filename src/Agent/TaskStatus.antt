-- ===== src/Agent/TaskStatus.antt =====
-- agent/state/models.py: `TaskStatus`, `TASK_TRANSITIONS` and `assert_task_transition`.
pub mod Graph
use jake_ai.Prelude.{
  Bool, List, Result, [], err, false, if◌then◌else◌, ite, not, ok, true, value_error, ◌||◌, ◌∷◌,
}

pub data TaskStatus : Type 0 where
  pending planning ready running executing paused_approval waiting_approval : TaskStatus
  verifying replanning completed failed cancelled rejected timeout : TaskStatus

pub TaskStatus-discrete : Discrete TaskStatus
TaskStatus-discrete = hlevel

-- `current == target`
unfoldable pub same_status : TaskStatus → TaskStatus → Bool
same_status a b = ite (TaskStatus-discrete a b) true false

-- `TaskStatus.is_terminal`
unfoldable pub is_terminal : TaskStatus → Bool
is_terminal completed = true
is_terminal failed = true
is_terminal cancelled = true
is_terminal rejected = true
is_terminal timeout = true
is_terminal _ = false

-- `TASK_TRANSITIONS.get(current, frozenset())`
unfoldable pub task_transitions : TaskStatus → List TaskStatus
task_transitions pending = planning ∷ ready ∷ running ∷ failed ∷ rejected ∷ cancelled ∷ []
task_transitions planning = ready ∷ running ∷ failed ∷ cancelled ∷ []
task_transitions ready = running ∷ executing ∷ failed ∷ cancelled ∷ []
task_transitions running =
    executing ∷ waiting_approval ∷ paused_approval ∷ verifying ∷ completed ∷ failed ∷ cancelled
    ∷ rejected ∷ timeout ∷ []
task_transitions executing =
    running ∷ waiting_approval ∷ paused_approval ∷ verifying ∷ completed ∷ failed ∷ cancelled
    ∷ rejected ∷ timeout ∷ []
task_transitions waiting_approval = running ∷ executing ∷ rejected ∷ cancelled ∷ failed ∷ []
task_transitions paused_approval = running ∷ executing ∷ rejected ∷ cancelled ∷ failed ∷ []
task_transitions verifying =
    completed ∷ replanning ∷ planning ∷ running ∷ failed ∷ rejected ∷ cancelled ∷ []
task_transitions replanning = planning ∷ ready ∷ running ∷ executing ∷ failed ∷ cancelled ∷ []
task_transitions _ = []

-- `target in transitions`
unfoldable pub mem_status : TaskStatus → List TaskStatus → Bool
unfolding same_status
mem_status s [] = false
mem_status s (x ∷ xs) = same_status x s || mem_status s xs

-- A terminal task may be opened again, to RUNNING only.
unfoldable pub assert_task_transition : TaskStatus → TaskStatus → Result (Unit {0})
unfolding same_status is_terminal task_transitions mem_status
assert_task_transition current target =
    if same_status current target
    then ok tt
    else if is_terminal current
    then (if same_status target running then ok tt else err value_error)
    else if not (mem_status target (task_transitions current))
    then err value_error
    else ok tt
