-- ===== src/Agent/Plan/Sample.antt =====
-- Steps and plans for the examples.
use jake_ai.Prelude.{List, String, [], none, some}
use jake_ai.Agent.Plan.{PlanStep, StepStatus, ExecutionPlan}

abbrev pub sample_step : String → List String → StepStatus → PlanStep
sample_step step_id dependencies status = record {
  step_id = step_id;
  description = "a step";
  objective = "";
  dependencies = dependencies;
  required_capabilities = [];
  candidate_agents = [];
  required_tools = [];
  model_requirements = [];
  success_conditions = [];
  retry_policy = record { max_retries = 3; backoff_ms = 200; retryable_errors = [] };
  timeout_ms = 30000;
  status = status;
  assigned_agent = some "alpha";
  selected_model = none;
  selected_provider = none;
  pending_approval_id = none;
  observation = none;
  error = none;
  result = none;
  tool_name = none;
  tool_args = [];
  retries_exhausted = 0;
  agent_switches = 0;
}

abbrev pub sample_plan : List PlanStep → ExecutionPlan
sample_plan steps = record {
  plan_id = "plan_1";
  task_id = "task_1";
  goal = "a report";
  analysis = "";
  steps = steps;
  planner_mode = "deterministic";
  created_at = 1;
  updated_at = 1;
}
