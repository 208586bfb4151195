-- ===== src/Agent/RunState.antt =====
-- agent/state/models.py: `RunState`, with the checked assignment of its status. A method returns
-- the new record beside what it returns or raises. Times are readings of the clock that the caller
-- passes in; costs are whole micro-dollars. The status is a member of the enum, so its conversion
-- `RunStatus(value)` succeeds.
pub mod Writes
pub mod Steps
pub mod Bridge
pub mod RoundTrip
pub mod Sample
mod Tests
use jake_ai.Prelude.{
  Dict, List, Option, Result, String, Value, err, if◌then◌else◌, none, ok, some, str_eq, ℕ,
}
use jake_ai.Agent.RunStatus.{RunStatus, is_terminal, assert_run_transition}

-- `StepExecutionRecord`
pub record StepExecutionRecord : Type 0 where
  pub step_number : ℕ
  pub description : String
  pub action_type : String
  pub tool_name : Option String
  pub tool_args : Dict Value
  pub observation : Option String
  pub step_status : String
  pub execution_time_ms : ℕ
  pub timestamp : ℕ

pub record RunState : Type 0 where
  pub run_id : String
  pub task_id : String
  pub tenant_id : String
  pub user_id : String
  pub status : RunStatus
  pub roles : List String
  pub permissions : List String
  pub correlation_id : Option String
  pub current_iteration : ℕ
  pub current_step : Value
  pub max_iterations : ℕ
  pub steps : List StepExecutionRecord
  pub current_agent : Option String
  pub next_agent : Option String
  pub prompt : Option String
  pub messages : List String
  pub context : Dict Value
  pub tool_calls : List (Dict Value)
  pub tool_results : List (Dict Value)
  pub revision_count : ℕ
  pub verification_verdict : Option String
  pub approval_state : Option String
  pub pending_approval_id : Option String
  pub checkpoint_metadata : Dict Value
  pub plan : Option Value
  pub final_output : Option String
  pub error : Option String
  pub termination_reason : Option String
  pub tokens_consumed : ℕ
  pub cost_usd : ℕ
  pub created_at : ℕ
  pub completed_at : Option ℕ
  pub metadata : Dict Value
  -- `_enforced_status`
  pub enforced_status : Option RunStatus

-- `_init_status_tracking`, the validator that runs when a record has been built
unfoldable pub init_status_tracking : RunState → RunState
init_status_tracking r = elim r.enforced_status [
  | none ↦ record r { enforced_status = some r.status }
  | some _ ↦ r
]

-- `run.status = value`, the branch of `__setattr__` for the status of a complete record
unfoldable pub set_status : RunStatus → RunState → Result (Unit {0}) × RunState
set_status target r = elim r.enforced_status [
  | none ↦ (ok tt, record r { status = target; enforced_status = some target })
  | some current ↦ elim (assert_run_transition current target) [
    | ok _ ↦ (ok tt, record r { status = target; enforced_status = some target })
    | err e ↦ (err e, r)
  ]
]

-- `if reason: self.termination_reason = reason`
unfoldable pub set_reason : Option String → RunState → RunState
set_reason none r = r
set_reason (some reason) r =
    if str_eq reason "" then r else record r { termination_reason = some reason }

-- the writes that follow the status in `transition_to`
unfoldable pub finish_transition : RunStatus → Option String → ℕ → RunState → RunState
unfolding set_reason
finish_transition target reason now r =
    let r' = set_reason reason r in
    if is_terminal target then record r' { completed_at = some now } else r'

-- `transition_to`
unfoldable pub transition_to :
    RunStatus → Option String → ℕ → RunState → Result (Unit {0}) × RunState
unfolding set_status finish_transition
transition_to target reason now r = elim (assert_run_transition r.status target) [
  | err e ↦ (err e, r)
  | ok _ ↦
      let (w, r') = set_status target r in
      elim w [ err e ↦ (err e, r') | ok _ ↦ (ok tt, finish_transition target reason now r') ]
]
