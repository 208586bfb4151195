-- ===== src/Agent/Manager/Cancel.antt =====
-- Cancelling a run: it never fails on a run and a task that the caller owns, and what it leaves.
use jake_ai.Agent.Manager.{Manager, cancel_found, cancel_run, get_task, get_run, cancel_task}
use jake_ai.Prelude.{
  String, arith, false, if◌then◌else◌, insert, lookup, lookup-insert_self, map_option, none, ok,
  some, true, ℕ, ◌≡◌, ◌≢◌,
}
use jake_ai.Agent.RunStatus
use jake_ai.Agent.RunStatus.{RunStatus, assert_run_transition}
use jake_ai.Agent.TaskStatus
use jake_ai.Agent.TaskStatus.{TaskStatus, assert_task_transition}
use jake_ai.Agent.RunState
use jake_ai.Agent.RunState.{RunState}
use jake_ai.Agent.RunState.Writes.{IsTracked}
use jake_ai.Agent.TaskState
use jake_ai.Agent.TaskState.{TaskState}

run_cancellable :
    (s : RunStatus)
    → RunStatus.is_terminal s ≡ false
    → assert_run_transition s RunStatus.cancelled ≡ ok tt
unfolding RunStatus.is_terminal assert_run_transition
run_cancellable RunStatus.created h = ground arith
run_cancellable _ h = ground arith

task_cancellable :
    (s : TaskStatus)
    → TaskStatus.is_terminal s ≡ false
    → assert_task_transition s TaskStatus.cancelled ≡ ok tt
unfolding TaskStatus.is_terminal assert_task_transition
task_cancellable TaskStatus.pending h = ground arith
task_cancellable _ h = ground arith

-- A task's private copy of its status is the status.
abbrev pub IsTrackedTask : TaskState → Type 0
IsTrackedTask t = t.enforced_status ≡ some t.status

-- a cancelled run
abbrev pub cancelled_run : ℕ → RunState → RunState
cancelled_run now run = record run {
  status = RunStatus.cancelled;
  completed_at = some now;
  enforced_status = some RunStatus.cancelled;
}

abbrev pub cancelled_task : TaskState → TaskState
cancelled_task task =
    if TaskStatus.is_terminal task.status
    then task
    else record task { status = TaskStatus.cancelled; enforced_status = some TaskStatus.cancelled }

cancel_transition :
    (now : ℕ) (run : RunState)
    → IsTracked run
    → RunStatus.is_terminal run.status ≡ false
    → RunState.transition_to RunStatus.cancelled none now run ≡ (ok tt, cancelled_run now run)
unfolding RunState.transition_to RunStatus.is_terminal
cancel_transition now run tracked h = ground (arith, run_cancellable run.status)

cancel_task_transition :
    (task : TaskState)
    → IsTrackedTask task
    → TaskStatus.is_terminal task.status ≡ false
    → TaskState.transition_to TaskStatus.cancelled none task ≡ (
      ok tt,
      record task { status = TaskStatus.cancelled; enforced_status = some TaskStatus.cancelled },
    )
unfolding TaskState.transition_to
cancel_task_transition task tracked h = ground (arith, task_cancellable task.status)

-- The manager after a cancellation.
abbrev pub cancelled_manager : ℕ → String → String → TaskState → RunState → Manager → Manager
cancelled_manager now task_id run_id task run m = record m {
  cancellation_flags = insert run_id true m.cancellation_flags;
  runs = insert run_id (cancelled_run now run) m.runs;
  tasks =
      if TaskStatus.is_terminal task.status
      then m.tasks
      else insert task_id (cancelled_task task) m.tasks;
}

module _ (now : ℕ) (task_id run_id tenant_id : String) (task : TaskState) (run : RunState)
    (m : Manager) (tracked : IsTracked run) (tracked_task : IsTrackedTask task) where
  cancel_found_lem :
      RunStatus.is_terminal run.status ≡ false
      → cancel_found now task_id run_id task run m
        ≡ (ok (cancelled_run now run), cancelled_manager now task_id run_id task run m)
  unfolding cancel_found cancel_task
  cancel_found_lem h =
      ground (arith, cancel_transition now run tracked h, cancel_task_transition task tracked_task)

  -- A cancellation by the owner of a run and a task always succeeds. A run that has ended is
  -- returned as it is and nothing changes; any other run is flagged and becomes CANCELLED at that
  -- time, and the task becomes CANCELLED too unless it has ended.
  pub cancel_run_lem :
      get_task task_id tenant_id m ≡ ok task
      → get_run run_id tenant_id m ≡ ok run
      → cancel_run now task_id run_id tenant_id m ≡ (
          if RunStatus.is_terminal run.status
          then (ok run, m)
          else (ok (cancelled_run now run), cancelled_manager now task_id run_id task run m))
  unfolding cancel_run
  cancel_run_lem ht hr = ground (arith, cancel_found_lem)

  -- The run is not compared with the task: where it belongs to another task, the task that was
  -- named becomes CANCELLED all the same.
  pub cancel_ignores_binding :
      get_task task_id tenant_id m ≡ ok task
      → get_run run_id tenant_id m ≡ ok run
      → run.task_id ≢ task_id
      → RunStatus.is_terminal run.status ≡ false
      → TaskStatus.is_terminal task.status ≡ false
      → map_option
          (λ (t : TaskState). t.status)
          (lookup task_id (cancel_run now task_id run_id tenant_id m).1.tasks)
        ≡ some TaskStatus.cancelled
  cancel_ignores_binding ht hr other going open_task =
      ground (arith, cancel_run_lem ht hr, lookup-insert_self task_id (cancelled_task task) m.tasks)
