-- ===== src/Agent/Manager/Tests.antt =====
-- Two tasks of a tenant, and a third party that calls.
use jake_ai.Prelude.{
  String, [], arith, eq_iff, false, if◌then◌else◌, lookup, none, null, ok, refl, some, ◌∷◌, ◌≡◌,
  ◌≢◌,
}
use jake_ai.Agent.RunStatus
use jake_ai.Agent.TaskStatus
use jake_ai.Agent.RunStatus.{RunStatus}
use jake_ai.Agent.TaskStatus.{TaskStatus}
use jake_ai.Agent.RunState.{RunState}
use jake_ai.Agent.RunState.Sample.{sample_run}
use jake_ai.Agent.TaskState.{TaskState}
use jake_ai.Agent.Manager.{Manager, Caller, get_task, get_run, cancel_run}
use jake_ai.Agent.Manager.Cancel.{cancelled_run, cancelled_manager, cancel_run_lem}
use jake_ai.Agent.Manager.Tenants.{make_run, perform, Untouched, tenant_isolation}

abbrev sample_task : String → TaskState
sample_task task_id = record {
  task_id = task_id;
  tenant_id = "acme";
  user_id = "ann";
  goal = "a report";
  status = TaskStatus.running;
  active_run_id = none;
  created_at = 1;
  updated_at = 1;
  metadata = [];
  enforced_status = some TaskStatus.running;
}

abbrev run : RunState
run = sample_run "run_1" "task_1" RunStatus.running

abbrev manager : Manager
manager = record {
  max_iterations = 10;
  tasks = ("task_1", sample_task "task_1") ∷ ("task_2", sample_task "task_2") ∷ [];
  runs = ("run_1", run) ∷ [];
  cancellation_flags = [];
  approvals = [];
}

task_1_found : get_task "task_1" "acme" manager ≡ ok (sample_task "task_1")
unfolding get_task lookup
task_1_found = refl

task_2_found : get_task "task_2" "acme" manager ≡ ok (sample_task "task_2")
unfolding get_task lookup
task_2_found = refl

run_found : get_run "run_1" "acme" manager ≡ ok run
unfolding get_run lookup
run_found = refl

cancel_run_lem_example : cancel_run 50 "task_1" "run_1" "acme" manager ≡ (
    if RunStatus.is_terminal RunStatus.running then (ok run, manager) else (
      ok (cancelled_run 50 run),
      cancelled_manager 50 "task_1" "run_1" (sample_task "task_1") run manager,
    ))
cancel_run_lem_example =
    cancel_run_lem 50 "task_1" "run_1" "acme" (sample_task "task_1") run manager refl refl
      task_1_found run_found

running_goes_on : RunStatus.is_terminal RunStatus.running ≡ false
unfolding RunStatus.is_terminal
running_goes_on = refl

task_goes_on : TaskStatus.is_terminal TaskStatus.running ≡ false
unfolding TaskStatus.is_terminal
task_goes_on = refl

other_task : run.task_id ≢ "task_2"
other_task h = ground (arith, eq_iff run.task_id "task_2")

abbrev stranger : Caller
stranger = record {
  tenant_id = "umbrella";
  user_id = "eve";
  roles = [];
  permissions = [];
  correlation_id = none;
}

run_2_free : lookup "run_2" manager.runs ≡ none
unfolding lookup
run_2_free = refl

tenant_isolation_example :
    Untouched "umbrella" manager
      (perform (λ goal. null) stranger (make_run "run_2" 60 "task_1" none) manager)
tenant_isolation_example =
    tenant_isolation (λ goal. null) stranger (make_run "run_2" 60 "task_1" none) manager run_2_free
