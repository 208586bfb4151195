-- ===== src/Core/RoutePolicy/Ownership.antt =====
-- The ownership checks of `AuthorizationMiddleware` in core/route_policy.py: the task and the run of a
-- path are the caller's.
use jake_ai.Prelude.{
  Bool, Dict, Option, Result, String, err, http_exception, if◌then◌else◌, key_error, lookup, none,
  ok, permission_error, some, str_eq, ◌&&◌, ◌>>=◌,
}
use jake_ai.Core.Security.{TenantContext}
use jake_ai.Agent.RunState.{RunState}
use jake_ai.Agent.TaskState.{TaskState}
use jake_ai.Agent.Manager.{Manager, get_task, get_or_restore_run}

-- KeyError and PermissionError become 404
unfoldable pub or_not_found : Result (Unit {0}) → Result (Unit {0})
or_not_found (err key_error) = err (http_exception 404)
or_not_found (err permission_error) = err (http_exception 404)
or_not_found r = r

-- the run of the path is the caller's, and of the task of the path
unfoldable pub is_own_run : TenantContext → TaskState → String → RunState → Bool
is_own_run context task run_id run =
    str_eq run.run_id run_id
    && str_eq run.tenant_id context.tenant_id
    && str_eq run.task_id task.task_id
    && str_eq run.user_id context.user_id

unfoldable pub check_run :
    Result (Option RunState)
    → TenantContext
    → TaskState
    → Option String
    → Manager
    → Result (Unit {0}) × Manager
check_run loaded context task none m = (ok tt, m)
check_run loaded context task (some run_id) m =
    let (found, m') = get_or_restore_run loaded run_id context.tenant_id m in
    (found >>= λ run. if is_own_run context task run_id run then ok tt else err key_error, m')

unfoldable pub check_owned :
    Result (Option RunState) → TenantContext → Dict String → Manager → Result (Unit {0}) × Manager
check_owned loaded context params m = elim (lookup "task_id" params) [
  | none ↦ (err key_error, m)
  | some task_id ↦ elim (get_task task_id context.tenant_id m) [
    | err e ↦ (err e, m)
    | ok task ↦
        if str_eq task.user_id context.user_id
        then check_run loaded context task (lookup "run_id" params) m
        else (err key_error, m)
  ]
]
