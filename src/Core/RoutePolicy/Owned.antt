-- ===== src/Core/RoutePolicy/Owned.antt =====
-- What the ownership checks of core/route_policy.py establish.
use jake_ai.Prelude.{
  Bool-cases, Dict, Option, Option-cases, Result-cases, String, arith, bind-ok, codes, eq_iff,
  false, inl, inr, is_prefix, lookup, none, ok, some, ◌++◌, ◌≡◌, ◌⊎◌,
}
use jake_ai.Core.Security.{TenantContext}
use jake_ai.Core.RoutePolicy.Ownership.{check_owned, check_run, or_not_found, is_own_run}
use jake_ai.Core.RoutePolicy.Gate.{Surroundings, Matched, check_ownership}
use jake_ai.Agent.TaskState.{TaskState}
use jake_ai.Agent.RunState.{RunState}
use jake_ai.Agent.Manager.{Manager, get_task, get_or_restore_run}

-- The run that the path names, if it names one, is the caller's and of the task.
abbrev pub OwnsRun : Surroundings → TenantContext → TaskState → Option String → Manager → Type 0
OwnsRun s context task none m = Unit
OwnsRun s context task (some run_id) m =
    (run : RunState) × ((get_or_restore_run s.loaded run_id context.tenant_id m).0 ≡ ok run)
    × (run.run_id ≡ run_id)
    × (run.tenant_id ≡ context.tenant_id)
    × (run.task_id ≡ task.task_id)
    × (run.user_id ≡ context.user_id)

-- The caller owns the task that the path names, and its run.
abbrev pub Owns : Surroundings → TenantContext → Dict String → Manager → Type 0
Owns s context params m =
    (task_id : String) × (task : TaskState) × (lookup "task_id" params ≡ some task_id)
    × (get_task task_id context.tenant_id m ≡ ok task)
    × (task.user_id ≡ context.user_id)
    × OwnsRun s context task (lookup "run_id" params) m

owns_run :
    (s : Surroundings) (context : TenantContext) (task : TaskState) (run_id : Option String)
    (m : Manager)
    → (check_run s.loaded context task run_id m).0 ≡ ok tt
    → OwnsRun s context task run_id m
unfolding check_run is_own_run
owns_run s context task none m h = tt
owns_run s context task (some run_id) m h =
    let (run, found, h1) =
      bind-ok (get_or_restore_run s.loaded run_id context.tenant_id m).0 _ tt h in
    (
      run,
      found,
      ground (arith, eq_iff run.run_id run_id),
      ground (arith, eq_iff run.tenant_id context.tenant_id),
      ground (arith, eq_iff run.task_id task.task_id),
      ground (arith, eq_iff run.user_id context.user_id),
    )

owned :
    (s : Surroundings) (context : TenantContext) (params : Dict String) (m : Manager)
    → (check_owned s.loaded context params m).0 ≡ ok tt
    → Owns s context params m
unfolding check_owned
owned s context params m h = elim (Option-cases (lookup "task_id" params)) [
  | inl missing ↦ ground arith
  | inr (task_id, named) ↦ elim (Result-cases (get_task task_id context.tenant_id m)) [
    | inl (e, refused) ↦ ground arith
    | inr (task, found) ↦ (
      task_id,
      task,
      named,
      found,
      ground (arith, eq_iff task.user_id context.user_id),
      owns_run s context task (lookup "run_id" params) m
          (ground (arith, eq_iff task.user_id context.user_id)),
    )
  ]
]

pub check_ownership-Owns :
    (s : Surroundings) (context : TenantContext) (found : Matched) (m : Manager)
    → (check_ownership s context found m).0 ≡ ok tt
    → (is_prefix (s.api ++ codes "/agent/tasks/") found.route_path ≡ false)
      ⊎ Owns s context found.params m
unfolding check_ownership or_not_found
check_ownership-Owns s context found m h =
    elim (Bool-cases (is_prefix (s.api ++ codes "/agent/tasks/") found.route_path)) [
      | inl under ↦ inr (owned s context found.params m (ground arith))
      | inr outside ↦ inl outside
    ]
