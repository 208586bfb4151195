-- ===== src/Agent/Manager/Tenants.antt =====
-- Calls by one tenant leave the tasks and the runs of every other tenant as they are.
use jake_ai.Agent.RunStatus
use jake_ai.Agent.TaskStatus
use jake_ai.Agent.RunState
use jake_ai.Agent.TaskState
use jake_ai.Prelude.{
  Bool-cases, Dict, Option, Result, String, Value, arith, eq_iff, err, false, inl, inr, insert,
  lookup, lookup-insert, ltb, none, ok, refl, some, str_eq, true, ℕ, ◌≡◌, ◌⊎◌,
}
use jake_ai.Agent.RunStatus
use jake_ai.Agent.TaskStatus
use jake_ai.Agent.RunState
use jake_ai.Agent.RunState.{RunState}
use jake_ai.Agent.TaskState
use jake_ai.Agent.TaskState.{TaskState}
use jake_ai.Agent.Approvals.{ApprovalDecision}
use jake_ai.Agent.Manager.{
  Manager, Caller, create_task, create_run, cancel_run, decide_approval, get_task, get_run,
  cancel_found, cancel_task, iterations_limit,
}

-- A call with the id that `uuid` draws for it, where it makes one.
pub data Call : Type 0 where
  make_task : String → ℕ → String → Dict Value → Call
  make_run : String → ℕ → String → Option ℕ → Call
  cancel : ℕ → String → String → Call
  decide : String → String → String → ApprovalDecision → Call

unfoldable pub perform : (String → Value) → Caller → Call → Manager → Manager
perform plan c (make_task task_id now goal metadata) m =
    (create_task task_id now goal c.tenant_id c.user_id metadata m).1
perform plan c (make_run run_id now task_id limit) m =
    (create_run plan run_id now task_id c limit m).1
perform plan c (cancel now task_id run_id) m = (cancel_run now task_id run_id c.tenant_id m).1
perform plan c (decide task_id run_id approval_id decision) m =
    (decide_approval task_id run_id approval_id decision c.tenant_id c.user_id m).1

-- A drawn id is not in use.
abbrev pub IsFresh : Call → Manager → Type 0
IsFresh (make_task task_id now goal metadata) m = lookup task_id m.tasks ≡ none
IsFresh (make_run run_id now task_id limit) m = lookup run_id m.runs ≡ none
IsFresh _ m = Unit

-- What other tenants have in a dict of tasks or of runs is there in another.
abbrev pub KeepsTasks : String → Dict TaskState → Dict TaskState → Type 0
KeepsTasks tenant_id d d' =
    (k : String) (t : TaskState)
    → lookup k d ≡ some t
    → str_eq t.tenant_id tenant_id ≡ false
    → lookup k d' ≡ some t

abbrev pub KeepsRuns : String → Dict RunState → Dict RunState → Type 0
KeepsRuns tenant_id d d' =
    (k : String) (r : RunState)
    → lookup k d ≡ some r
    → str_eq r.tenant_id tenant_id ≡ false
    → lookup k d' ≡ some r

abbrev pub Untouched : String → Manager → Manager → Type 0
Untouched tenant_id m m' =
    KeepsTasks tenant_id m.tasks m'.tasks × KeepsRuns tenant_id m.runs m'.runs

get_task-ok :
    (task_id tenant_id : String) (m : Manager) (t : TaskState)
    → get_task task_id tenant_id m ≡ ok t
    → (lookup task_id m.tasks ≡ some t) × (str_eq t.tenant_id tenant_id ≡ true)
unfolding get_task
get_task-ok task_id tenant_id m t h = ground arith

get_run-ok :
    (run_id tenant_id : String) (m : Manager) (r : RunState)
    → get_run run_id tenant_id m ≡ ok r
    → (lookup run_id m.runs ≡ some r) × (str_eq r.tenant_id tenant_id ≡ true)
unfolding get_run
get_run-ok run_id tenant_id m r h = ground arith

module _ (tenant_id : String) where
  -- a write under an id that is free or the tenant's own
  insert-KeepsTasks :
      (d : Dict TaskState) (task_id : String) (t : TaskState)
      → ((old : TaskState) → lookup task_id d ≡ some old → str_eq old.tenant_id tenant_id ≡ true)
      → KeepsTasks tenant_id d (insert task_id t d)
  insert-KeepsTasks d task_id t own k u h ne =
      ground (arith, lookup-insert task_id k t d, eq_iff task_id k, own u)

  insert-KeepsRuns :
      (d : Dict RunState) (run_id : String) (r : RunState)
      → ((old : RunState) → lookup run_id d ≡ some old → str_eq old.tenant_id tenant_id ≡ true)
      → KeepsRuns tenant_id d (insert run_id r d)
  insert-KeepsRuns d run_id r own k u h ne =
      ground (arith, lookup-insert run_id k r d, eq_iff run_id k, own u)

  Untouched-refl : (m : Manager) → Untouched tenant_id m m
  Untouched-refl m = ((λ k t h ne. h), (λ k r h ne. h))

module _ (now : ℕ) (task_id run_id : String) (task : TaskState) (run : RunState) (m : Manager) where
  cancel_found-runs :
      (cancel_found now task_id run_id task run m).1.runs
      ≡ insert run_id (RunState.transition_to RunStatus.cancelled none now run).1 m.runs
  unfolding cancel_found cancel_task
  cancel_found-runs = ground arith

  cancel_found-tasks :
      ((cancel_found now task_id run_id task run m).1.tasks ≡ m.tasks)
      ⊎ ((cancel_found now task_id run_id task run m).1.tasks
          ≡ insert task_id (TaskState.transition_to TaskStatus.cancelled none task).1 m.tasks)
  unfolding cancel_found cancel_task
  cancel_found-tasks = ground arith

module _ (c : Caller) (m : Manager) where
  own_task :
      (task_id : String) (task : TaskState)
      → get_task task_id c.tenant_id m ≡ ok task
      → (old : TaskState) → lookup task_id m.tasks ≡ some old
      → str_eq old.tenant_id c.tenant_id ≡ true
  own_task task_id task h old e = ground (arith, get_task-ok task_id c.tenant_id m task h)

  own_run :
      (run_id : String) (run : RunState)
      → get_run run_id c.tenant_id m ≡ ok run
      → (old : RunState) → lookup run_id m.runs ≡ some old
      → str_eq old.tenant_id c.tenant_id ≡ true
  own_run run_id run h old e = ground (arith, get_run-ok run_id c.tenant_id m run h)

  make_task-Untouched :
      (task_id : String) (now : ℕ) (goal : String) (metadata : Dict Value)
      → lookup task_id m.tasks ≡ none
      → Untouched c.tenant_id m (create_task task_id now goal c.tenant_id c.user_id metadata m).1
  unfolding create_task
  make_task-Untouched task_id now goal metadata fresh =
      (insert-KeepsTasks c.tenant_id m.tasks task_id _ (λ old h. cc), (λ k r h ne. h))

  make_run_by-Untouched :
      (plan : String → Value) (run_id : String) (now : ℕ) (task_id : String) (limit : Option ℕ)
      → lookup run_id m.runs ≡ none
      → (r : Result TaskState) → get_task task_id c.tenant_id m ≡ r
      → Untouched c.tenant_id m (create_run plan run_id now task_id c limit m).1
  unfolding create_run
  make_run_by-Untouched plan run_id now task_id limit fresh (err e) h =
      rw (h, create_run) (Untouched-refl c.tenant_id m)
  make_run_by-Untouched plan run_id now task_id limit fresh (ok task) h =
      elim (Bool-cases (ltb (iterations_limit limit m) 1)) [
        | inl none_left ↦ rw (h, none_left, create_run) (Untouched-refl c.tenant_id m)
        | inr some_left ↦
            rw (h, some_left, create_run)
              (
                insert-KeepsTasks c.tenant_id m.tasks task_id _ (own_task task_id task h),
                insert-KeepsRuns c.tenant_id m.runs run_id _ (λ old h. cc),
              )
      ]

  make_run-Untouched :
      (plan : String → Value) (run_id : String) (now : ℕ) (task_id : String) (limit : Option ℕ)
      → lookup run_id m.runs ≡ none
      → Untouched c.tenant_id m (create_run plan run_id now task_id c limit m).1
  make_run-Untouched plan run_id now task_id limit fresh =
      make_run_by-Untouched plan run_id now task_id limit fresh (get_task task_id c.tenant_id m)
        refl

  cancel_found-Untouched :
      (now : ℕ) (task_id run_id : String) (task : TaskState) (run : RunState)
      → get_task task_id c.tenant_id m ≡ ok task
      → get_run run_id c.tenant_id m ≡ ok run
      → Untouched c.tenant_id m (cancel_found now task_id run_id task run m).1
  cancel_found-Untouched now task_id run_id task run ht hr = (
    elim (cancel_found-tasks now task_id run_id task run m) [
      | inl same ↦ rw same (λ k t h ne. h)
      | inr written ↦
          rw written (insert-KeepsTasks c.tenant_id m.tasks task_id _ (own_task task_id task ht))
    ],
    rw (cancel_found-runs now task_id run_id task run m)
        (insert-KeepsRuns c.tenant_id m.runs run_id _ (own_run run_id run hr)),
  )

  cancel_by-Untouched :
      (now : ℕ) (task_id run_id : String) (t : Result TaskState) (r : Result RunState)
      → get_task task_id c.tenant_id m ≡ t
      → get_run run_id c.tenant_id m ≡ r
      → Untouched c.tenant_id m (cancel_run now task_id run_id c.tenant_id m).1
  unfolding cancel_run
  cancel_by-Untouched now task_id run_id (err e) r ht hr =
      rw (ht, cancel_run) (Untouched-refl c.tenant_id m)
  cancel_by-Untouched now task_id run_id (ok task) (err e) ht hr =
      rw (ht, hr, cancel_run) (Untouched-refl c.tenant_id m)
  cancel_by-Untouched now task_id run_id (ok task) (ok run) ht hr =
      elim (Bool-cases (RunStatus.is_terminal run.status)) [
        | inl ended ↦ rw (ht, hr, ended, cancel_run) (Untouched-refl c.tenant_id m)
        | inr going ↦
            rw (ht, hr, going, cancel_run)
              (cancel_found-Untouched now task_id run_id task run ht hr)
      ]

  cancel-Untouched :
      (now : ℕ) (task_id run_id : String)
      → Untouched c.tenant_id m (cancel_run now task_id run_id c.tenant_id m).1
  cancel-Untouched now task_id run_id =
      cancel_by-Untouched now task_id run_id (get_task task_id c.tenant_id m)
        (get_run run_id c.tenant_id m) refl refl

  decide-Untouched :
      (task_id run_id approval_id : String) (decision : ApprovalDecision)
      → Untouched c.tenant_id m
          (decide_approval task_id run_id approval_id decision c.tenant_id c.user_id m).1
  unfolding decide_approval
  decide-Untouched task_id run_id approval_id decision =
      ((λ k t h ne. ground arith), (λ k r h ne. ground arith))

-- A call by one tenant, its drawn id being fresh, leaves the tasks and runs of every other tenant as
-- they are, whether it succeeds or raises.
pub tenant_isolation :
    (plan : String → Value) (c : Caller) (call : Call) (m : Manager)
    → IsFresh call m
    → Untouched c.tenant_id m (perform plan c call m)
unfolding perform
tenant_isolation plan c (make_task task_id now goal metadata) m fresh =
    make_task-Untouched c m task_id now goal metadata fresh
tenant_isolation plan c (make_run run_id now task_id limit) m fresh =
    make_run-Untouched c m plan run_id now task_id limit fresh
tenant_isolation plan c (cancel now task_id run_id) m fresh =
    cancel-Untouched c m now task_id run_id
tenant_isolation plan c (decide task_id run_id approval_id decision) m fresh =
    decide-Untouched c m task_id run_id approval_id decision
