-- ===== src/Agent/TaskStatus/Graph.antt =====
-- The task state machine against the run state machine.
use jake_ai.Prelude.{arith, ok, true, ◌↔◌, ◌≡◌, ◌⊎◌}
use jake_ai.Agent.RunStatus
use jake_ai.Agent.RunStatus.{RunStatus, assert_run_transition}
use jake_ai.Agent.TaskStatus.{
  TaskStatus, pending, planning, ready, running, executing, paused_approval, waiting_approval,
  verifying, replanning, completed, failed, cancelled, rejected, timeout, assert_task_transition,
}

-- The task status of the same name; a run that is created belongs to a pending task.
abbrev pub of_run : RunStatus → TaskStatus
of_run RunStatus.created = pending
of_run RunStatus.planning = planning
of_run RunStatus.ready = ready
of_run RunStatus.running = running
of_run RunStatus.executing = executing
of_run RunStatus.paused_approval = paused_approval
of_run RunStatus.waiting_approval = waiting_approval
of_run RunStatus.verifying = verifying
of_run RunStatus.replanning = replanning
of_run RunStatus.completed = completed
of_run RunStatus.failed = failed
of_run RunStatus.cancelled = cancelled
of_run RunStatus.rejected = rejected
of_run RunStatus.timeout = timeout

-- Where the two machines differ: a pending task may be rejected, and a task that has ended may be
-- opened again for a new attempt.
abbrev pub Extra : RunStatus → RunStatus → Type 0
Extra s t =
    ((s ≡ RunStatus.created) × (t ≡ RunStatus.rejected))
    ⊎ ((RunStatus.is_terminal s ≡ true) × (t ≡ RunStatus.running))

-- The task machine mirrors the run machine: what a run may do, its task may do, and beyond that a
-- task may only be rejected while pending or be opened again to RUNNING once it has ended.
task_mirrors_run :
    (s t : RunStatus)
    → (assert_task_transition (of_run s) (of_run t) ≡ ok tt)
      ↔ ((assert_run_transition s t ≡ ok tt) ⊎ Extra s t)
unfolding assert_run_transition assert_task_transition RunStatus.is_terminal
task_mirrors_run RunStatus.created t = ground arith
task_mirrors_run _ t = ground arith
