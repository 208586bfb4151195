-- ===== src/Agent/TaskState.antt =====
-- agent/state/models.py: `TaskState`, with the checked assignment of its status.
use jake_ai.Prelude.{
  Dict, Option, Result, String, Value, err, if◌then◌else◌, insert, none, ok, some, str, str_eq, ℕ,
}
use jake_ai.Agent.TaskStatus.{TaskStatus, assert_task_transition}

pub record TaskState : Type 0 where
  pub task_id : String
  pub tenant_id : String
  pub user_id : String
  pub goal : String
  pub status : TaskStatus
  pub active_run_id : Option String
  pub created_at : ℕ
  pub updated_at : ℕ
  pub metadata : Dict Value
  -- `_enforced_status`
  pub enforced_status : Option TaskStatus

-- `task.status = value`, the branch of `__setattr__` for the status of a complete record
unfoldable pub set_status : TaskStatus → TaskState → Result (Unit {0}) × TaskState
set_status target t = elim t.enforced_status [
  | none ↦ (ok tt, record t { status = target; enforced_status = some target })
  | some current ↦ elim (assert_task_transition current target) [
    | ok _ ↦ (ok tt, record t { status = target; enforced_status = some target })
    | err e ↦ (err e, t)
  ]
]

-- `if reason: self.metadata["status_reason"] = reason`
unfoldable pub set_reason : Option String → TaskState → TaskState
set_reason none t = t
set_reason (some reason) t =
    if str_eq reason ""
    then t
    else record t { metadata = insert "status_reason" (str reason) t.metadata }

unfoldable pub transition_to :
    TaskStatus → Option String → TaskState → Result (Unit {0}) × TaskState
unfolding set_status set_reason
transition_to target reason t = elim (assert_task_transition t.status target) [
  | err e ↦ (err e, t)
  | ok _ ↦
      let (w, t') = set_status target t in
      elim w [ err e ↦ (err e, t') | ok _ ↦ (ok tt, set_reason reason t') ]
]
