-- ===== src/Agent/Plan.antt =====
-- agent/domain/contracts.py: plan steps and `ExecutionPlan`. A method that mutates the plan returns
-- the new plan. Times are in milliseconds. `find` returns the step object that the list holds, so a
-- write to it is a write to the first step of that id in the list.
pub mod Tiers
pub mod Grouping
pub mod Marks
pub mod Sample
mod Tests
use jake_ai.Prelude.{
  Bool, Dict, List, Option, String, Value, [], all, any, false, filter, if◌then◌else◌, mem_str,
  none, some, str_eq, true, ℕ, ◌&&◌, ◌∷◌,
}

pub data StepStatus : Type 0 where
  pending ready running executing paused_approval waiting_approval : StepStatus
  completed failed skipped cancelled : StepStatus

pub record StepRetryPolicy : Type 0 where
  pub max_retries : ℕ
  pub backoff_ms : ℕ
  pub retryable_errors : List String

pub record StepResult : Type 0 where
  pub step_id : String
  pub status : StepStatus
  pub output : Value
  pub error : Option String
  pub agent_id : Option String
  pub model_used : Option String
  pub provider_used : Option String
  pub tool_calls : List (Dict Value)
  pub execution_time_ms : ℕ
  pub tokens_consumed : ℕ
  pub cost_usd : ℕ
  pub timestamp : ℕ

pub record PlanStep : Type 0 where
  pub step_id : String
  pub description : String
  pub objective : String
  pub dependencies : List String
  pub required_capabilities : List String
  pub candidate_agents : List String
  pub required_tools : List String
  pub model_requirements : Dict Value
  pub success_conditions : List String
  pub retry_policy : StepRetryPolicy
  pub timeout_ms : ℕ
  pub status : StepStatus
  pub assigned_agent : Option String
  pub selected_model : Option String
  pub selected_provider : Option String
  pub pending_approval_id : Option String
  pub observation : Option String
  pub error : Option String
  pub result : Option StepResult
  pub tool_name : Option String
  pub tool_args : Dict Value
  pub retries_exhausted : ℕ
  pub agent_switches : ℕ

pub record ExecutionPlan : Type 0 where
  pub plan_id : String
  pub task_id : String
  pub goal : String
  pub analysis : String
  pub steps : List PlanStep
  pub planner_mode : String
  pub created_at : ℕ
  pub updated_at : ℕ

abbrev pub is_completed : PlanStep → Bool
is_completed s = elim s.status [ completed ↦ true | _ ↦ false ]

-- `s.status in (StepStatus.PENDING, StepStatus.READY)`
abbrev pub is_waiting : PlanStep → Bool
is_waiting s = elim s.status [ pending ↦ true | ready ↦ true | _ ↦ false ]

-- `s.status in (StepStatus.COMPLETED, StepStatus.SKIPPED)`
abbrev pub is_done : PlanStep → Bool
is_done s = elim s.status [ completed ↦ true | skipped ↦ true | _ ↦ false ]

abbrev pub is_failed : PlanStep → Bool
is_failed s = elim s.status [ failed ↦ true | _ ↦ false ]

-- `all(dep in completed for dep in s.dependencies)`
abbrev pub deps_in : List String → PlanStep → Bool
deps_in done s = all (λ d. mem_str d done) s.dependencies

abbrev pub ids : List PlanStep → List String
ids [] = []
ids (s ∷ steps) = s.step_id ∷ ids steps

-- the loop of `get_step`
unfoldable pub find : String → List PlanStep → Option PlanStep
find step_id [] = none
find step_id (s ∷ steps) =
    let rest = find step_id steps in if str_eq s.step_id step_id then some s else rest

unfoldable pub get_step : String → ExecutionPlan → Option PlanStep
unfolding find
get_step step_id plan = find step_id plan.steps

-- `completed_step_ids or {...}`: an empty set counts as none
unfoldable pub completed_ids : Option (List String) → List PlanStep → List String
completed_ids (some (x ∷ xs)) steps = x ∷ xs
completed_ids _ steps = ids (filter is_completed steps)

unfoldable pub get_runnable_steps : Option (List String) → ExecutionPlan → List PlanStep
unfolding completed_ids
get_runnable_steps given plan =
    let done = completed_ids given plan.steps in
    filter (λ s. is_waiting s && deps_in done s) plan.steps

unfoldable pub is_complete : ExecutionPlan → Bool
is_complete plan = elim plan.steps [ [] ↦ false | s ∷ steps ↦ all is_done (s ∷ steps) ]

unfoldable pub has_failures : ExecutionPlan → Bool
has_failures plan = any is_failed plan.steps

-- `if x is not None: ...`
abbrev given_or {ℓ} : {A : Type ℓ} → Option A → Option A → Option A
given_or none old = old
given_or (some a) old = some a

unfoldable pub mark :
    StepStatus → Option String → Option String → Option StepResult → PlanStep → PlanStep
mark status observation error result s = record s {
  status = status;
  observation = given_or observation s.observation;
  error = given_or error s.error;
  result = given_or result s.result;
}

-- a write to the step object that `find` returns
unfoldable pub update_first : String → (PlanStep → PlanStep) → List PlanStep → List PlanStep
update_first step_id f [] = []
update_first step_id f (s ∷ steps) =
    let rest = update_first step_id f steps in
    if str_eq s.step_id step_id then f s ∷ steps else s ∷ rest

unfoldable pub mark_step_status :
    String
    → StepStatus
    → Option String
    → Option String
    → Option StepResult
    → ℕ
    → ExecutionPlan
    → ExecutionPlan
unfolding get_step mark update_first
mark_step_status step_id status observation error result now plan = elim (get_step step_id plan) [
  | none ↦ plan
  | some _ ↦ record plan {
    steps = update_first step_id (mark status observation error result) plan.steps;
    updated_at = now;
  }
]
