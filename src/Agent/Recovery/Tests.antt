-- ===== src/Agent/Recovery/Tests.antt =====
-- A step that times out, and a verification that asks for a revision.
use jake_ai.Prelude.{List, [], arith, length, none, null, refl, some, true, ◌∷◌, ◌≡◌, ◌≤◌}
use jake_ai.Agent.Plan
use jake_ai.Agent.Plan.{PlanStep, StepResult, mark}
use jake_ai.Agent.Plan.Sample.{sample_step}
use jake_ai.Agent.Recovery.{RecoveryLimits, default_limits, evaluate_step_failure}
use jake_ai.Agent.Recovery.Decisions.{Justified, step_decision-Justified}
use jake_ai.Agent.Recovery.Loop.{
  Failure, survives, budget, handle_failure, apply_action, recoveries_bounded,
}

abbrev flaky : PlanStep
flaky = sample_step "fetch" [] Plan.running

step_decision-Justified_example :
    Justified default_limits [] flaky "Connection reset" 1 500
      (evaluate_step_failure default_limits [] flaky "Connection reset" 1 500)
step_decision-Justified_example =
    step_decision-Justified default_limits [] flaky "Connection reset" 1 500 (ground arith)

abbrev no_replans : RecoveryLimits
no_replans = record default_limits { max_replans = 0 }

abbrev timed_out : StepResult
timed_out = record {
  step_id = "fetch";
  status = Plan.failed;
  output = null;
  error = some "Timeout";
  agent_id = none;
  model_used = none;
  provider_used = none;
  tool_calls = [];
  execution_time_ms = 30000;
  tokens_consumed = 0;
  cost_usd = 0;
  timestamp = 1;
}

abbrev misfortunes : List Failure
misfortunes = (timed_out, 10) ∷ (timed_out, 20) ∷ []

misfortunes-survived : survives default_limits [] misfortunes flaky ≡ true
unfolding survives handle_failure evaluate_step_failure apply_action mark
    jake_ai.Agent.Recovery.classify
misfortunes-survived = refl

recoveries_bounded_example : length misfortunes ≤ budget default_limits flaky
recoveries_bounded_example =
    recoveries_bounded default_limits [] misfortunes flaky misfortunes-survived
