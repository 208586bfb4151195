-- ===== src/Agent/Manager.antt =====
-- agent/runtime/manager.py: `AgentRuntimeManager` over its stores of tasks and runs, the
-- cancellation flags of the runner and the approval store. The tasks and runs are the objects that
-- the dicts hold: a write to one is a write back under its id. A method returns what it returns or
-- raises beside the manager. The ids that `uuid` draws, the times, and the planner's initial plan
-- are arguments. `execute_run` and `get_or_restore_run` are modelled up to the call of the runner
-- and of the checkpoint manager, whose outcome is an argument. What resumes a run after an approval
-- is not modelled: `decide` raises before it.
pub mod Tenants
pub mod Cancel
mod Tests
use jake_ai.Prelude.{
  Bool, Dict, List, Option, Result, String, Value, [], err, if◌then◌else◌, insert, key_error,
  lookup, ltb, none, not, num, ok, permission_error, some, str_eq, true, value_error, ℕ, ◌==◌,
  ◌>>=◌, ◌||◌,
}
use jake_ai.Agent.RunStatus
use jake_ai.Agent.RunStatus.{RunStatus}
use jake_ai.Agent.TaskStatus
use jake_ai.Agent.TaskStatus.{TaskStatus}
use jake_ai.Agent.RunState
use jake_ai.Agent.RunState.{RunState}
use jake_ai.Agent.TaskState
use jake_ai.Agent.TaskState.{TaskState}
use jake_ai.Agent.Approvals
use jake_ai.Agent.Approvals.{ApprovalRequest, ApprovalDecision}

pub record Manager : Type 0 where
  -- `config.max_iterations`
  pub max_iterations : ℕ
  pub tasks : Dict TaskState
  pub runs : Dict RunState
  -- `runner._cancellation_flags`
  pub cancellation_flags : Dict Bool
  -- `approval_manager`
  pub approvals : Approvals.Store

unfoldable pub create_task :
    String → ℕ → String → String → String → Dict Value → Manager → TaskState × Manager
create_task task_id now goal tenant_id user_id metadata m =
    let task : TaskState = record {
      task_id = task_id;
      tenant_id = tenant_id;
      user_id = user_id;
      goal = goal;
      status = TaskStatus.pending;
      active_run_id = none;
      created_at = now;
      updated_at = now;
      metadata = metadata;
      enforced_status = some TaskStatus.pending;
    } in
    (task, record m { tasks = insert task_id task m.tasks })

-- a lookup that checks the tenant of what it finds
abbrev owned_task : String → Option TaskState → Result TaskState
owned_task tenant_id none = err key_error
owned_task tenant_id (some task) =
    if not (str_eq task.tenant_id tenant_id) then err permission_error else ok task

abbrev owned_run : String → Option RunState → Result RunState
owned_run tenant_id none = err key_error
owned_run tenant_id (some run) =
    if not (str_eq run.tenant_id tenant_id) then err permission_error else ok run

unfoldable pub get_task : String → String → Manager → Result TaskState
get_task task_id tenant_id m = owned_task tenant_id (lookup task_id m.tasks)

unfoldable pub get_run : String → String → Manager → Result RunState
get_run run_id tenant_id m = owned_run tenant_id (lookup run_id m.runs)

-- `max_iterations or self.config.max_iterations`
unfoldable pub iterations_limit : Option ℕ → Manager → ℕ
iterations_limit none m = m.max_iterations
iterations_limit (some n) m = if n == 0 then m.max_iterations else n

-- the caller's identity and what it may do
pub record Caller : Type 0 where
  pub tenant_id : String
  pub user_id : String
  pub roles : List String
  pub permissions : List String
  pub correlation_id : Option String

unfoldable pub new_run : String → ℕ → String → ℕ → Value → Caller → RunState
new_run run_id now task_id limit plan c = record {
  run_id = run_id;
  task_id = task_id;
  tenant_id = c.tenant_id;
  user_id = c.user_id;
  status = RunStatus.created;
  roles = c.roles;
  permissions = c.permissions;
  correlation_id = c.correlation_id;
  current_iteration = 0;
  current_step = num 0;
  max_iterations = limit;
  steps = [];
  current_agent = none;
  next_agent = none;
  prompt = none;
  messages = [];
  context = [];
  tool_calls = [];
  tool_results = [];
  revision_count = 0;
  verification_verdict = none;
  approval_state = none;
  pending_approval_id = none;
  checkpoint_metadata = [];
  plan = some plan;
  final_output = none;
  error = none;
  termination_reason = none;
  tokens_consumed = 0;
  cost_usd = 0;
  created_at = now;
  completed_at = none;
  metadata = [];
  enforced_status = some RunStatus.created;
}

-- A run needs at least one iteration, or its validation raises.
unfoldable pub create_run :
    (String → Value) → String → ℕ → String → Caller → Option ℕ → Manager → Result RunState × Manager
create_run initial_plan run_id now task_id c limit m = elim (get_task task_id c.tenant_id m) [
  | err e ↦ (err e, m)
  | ok task ↦
      let run = new_run run_id now task_id (iterations_limit limit m) (initial_plan task.goal) c in
      if ltb (iterations_limit limit m) 1 then (err value_error, m) else (
        ok run,
        record m {
          runs = insert run_id run m.runs;
          tasks =
              insert task_id (record task { active_run_id = some run_id; updated_at = now })
                m.tasks;
        },
      )
]

-- `loaded` is what `load_checkpoint` gives: a run, nothing, or an exception. A checkpoint that is
-- restored is built anew, with its status tracked.
unfoldable pub get_or_restore_run :
    Result (Option RunState) → String → String → Manager → Result RunState × Manager
get_or_restore_run loaded run_id tenant_id m = elim (lookup run_id m.runs) [
  | some run ↦ (owned_run tenant_id (some run), m)
  | none ↦ elim loaded [
    | err e ↦ (err e, m)
    | ok none ↦ (err key_error, m)
    | ok (some cp) ↦
        let run = record cp { enforced_status = some cp.status } in
        (ok run, record m { runs = insert run_id run m.runs })
  ]
]

-- `execute_run` up to the start of the runner: the run that is handed to it
unfoldable pub admit_run : String → String → String → Manager → Result RunState
admit_run task_id run_id tenant_id m = do
  task ← get_task task_id tenant_id m
  run ← get_run run_id tenant_id m
  if RunStatus.is_terminal run.status then err value_error else ok run

-- the writes of `cancel_run` once the guards are passed: the flag, the run, then the task
unfoldable pub cancel_task : String → TaskState → Manager → Result (Unit {0}) × Manager
cancel_task task_id task m =
    if TaskStatus.is_terminal task.status
    then (ok tt, m)
    else let (w, task') = TaskState.transition_to TaskStatus.cancelled none task in
      (w, record m { tasks = insert task_id task' m.tasks })

unfoldable pub cancel_found :
    ℕ → String → String → TaskState → RunState → Manager → Result RunState × Manager
cancel_found now task_id run_id task run m =
    let flagged = record m { cancellation_flags = insert run_id true m.cancellation_flags } in
    let (w, run') = RunState.transition_to RunStatus.cancelled none now run in
    let stored = record flagged { runs = insert run_id run' m.runs } in
    elim w [
      | err e ↦ (err e, stored)
      | ok _ ↦
          let (v, m') = cancel_task task_id task stored in
          elim v [ err e ↦ (err e, m') | ok _ ↦ (ok run', m') ]
    ]

unfoldable pub cancel_run : ℕ → String → String → String → Manager → Result RunState × Manager
cancel_run now task_id run_id tenant_id m = elim (get_task task_id tenant_id m) [
  | err e ↦ (err e, m)
  | ok task ↦ elim (get_run run_id tenant_id m) [
    | err e ↦ (err e, m)
    | ok run ↦
        if RunStatus.is_terminal run.status
        then (ok run, m)
        else cancel_found now task_id run_id task run m
  ]
]

-- The guards of `decide_approval`, then the decision itself.
unfoldable pub decide_approval :
    String
    → String
    → String
    → ApprovalDecision
    → String
    → String
    → Manager
    → Result ApprovalRequest × Manager
decide_approval task_id run_id approval_id decision tenant_id user_id m =
    elim (get_task task_id tenant_id m) [
      | err e ↦ (err e, m)
      | ok task ↦ elim (get_run run_id tenant_id m) [
        | err e ↦ (err e, m)
        | ok run ↦ elim (Approvals.get_request approval_id tenant_id m.approvals) [
          | err e ↦ (err e, m)
          | ok req ↦
              if not (str_eq req.run_id run_id) || not (str_eq req.task_id task_id)
              then (err value_error, m)
              else let (r, store) =
                  Approvals.decide approval_id decision tenant_id user_id m.approvals in
                (r, record m { approvals = store })
        ]
      ]
    ]
