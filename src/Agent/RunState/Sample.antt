-- ===== src/Agent/RunState/Sample.antt =====
-- A run for the examples.
use jake_ai.Prelude.{String, [], none, num, some, ◌∷◌}
use jake_ai.Agent.RunStatus.{RunStatus}
use jake_ai.Agent.RunState.{RunState}

abbrev pub sample_run : String → String → RunStatus → RunState
sample_run run_id task_id status = record {
  run_id = run_id;
  task_id = task_id;
  tenant_id = "acme";
  user_id = "ann";
  status = status;
  roles = "user" ∷ [];
  permissions = [];
  correlation_id = none;
  current_iteration = 2;
  current_step = num 1;
  max_iterations = 10;
  steps = [];
  current_agent = none;
  next_agent = none;
  prompt = some "summarise";
  messages = "hello" ∷ [];
  context = [];
  tool_calls = [];
  tool_results = [];
  revision_count = 1;
  verification_verdict = none;
  approval_state = none;
  pending_approval_id = some "appr_1";
  checkpoint_metadata = [];
  plan = none;
  final_output = none;
  error = none;
  termination_reason = none;
  tokens_consumed = 40;
  cost_usd = 12;
  created_at = 100;
  completed_at = none;
  metadata = [];
  enforced_status = some status;
}
