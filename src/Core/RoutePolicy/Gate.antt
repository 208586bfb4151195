-- ===== src/Core/RoutePolicy/Gate.antt =====
-- `AuthorizationMiddleware.__call__` of core/route_policy.py up to the start of the application. The
-- route that the application's schema finds for a request, with its path parameters, is an argument,
-- and so is the outcome of loading a run that is not in memory.
use jake_ai.Core.RoutePolicy.Ownership.{check_owned, or_not_found}
use jake_ai.Core.RoutePolicy.{
  public_route, payment_signature, operator_route, user_route, Rule, is_one_of, policy_for,
}
use jake_ai.Prelude.{
  Bool, Dict, Exc, List, Option, Result, String, [], codes, contains, err, http_exception,
  if◌then◌else◌, is_prefix, length, mem_str, none, not, ok, some, str_eq, suc, zero, ℕ, ◌&&◌, ◌++◌,
  ◌==◌, ◌||◌, ◌∷◌,
}
use jake_ai.Core.Security
use jake_ai.Core.Security.{TenantContext, get_current_tenant}
use jake_ai.Core.Authority.{AuthorityLease, Moment}
use jake_ai.Core.Authority.Introspection.{Response}
use jake_ai.Agent.RunState.{RunState}
use jake_ai.Agent.Manager.{Manager}

pub data ScopeType : Type 0 where
  http websocket other_scope : ScopeType

pub record Request : Type 0 where
  pub scope_type : ScopeType
  pub method : String
  pub path : List ℕ
  -- whether it has the headers `origin` and `access-control-request-method`
  pub has_origin : Bool
  pub has_requested_method : Bool
  -- header `x-operator-secret`
  pub operator_secret : String
  -- all headers `authorization`
  pub authorization : List String
  pub correlation_id : String

-- a route of the schema and the parameters of the path
pub record Matched : Type 0 where
  pub route_path : List ℕ
  pub params : Dict String

-- what the middleware has around it
pub record Surroundings : Type 0 where
  pub api : List ℕ
  pub operator_metrics_secret : String
  pub kid_of : String → String
  pub moment : Moment
  -- the answer of the identity authority
  pub answer : Option Response
  -- what `load_checkpoint` gives
  pub loaded : Result (Option RunState)

-- How a request goes on: without an authority, not at all, or under a lease.
pub data Gate : Type 0 where
  passed : Gate
  closed : Gate
  refused : Exc → Gate
  served : TenantContext → AuthorityLease → Gate

-- a text without its first characters
abbrev skip : ℕ → String → String
skip zero s = s
skip (suc n) String.[] = String.[]
skip (suc n) (String.◌∷◌ c s) = skip n s

-- the one header, after `Bearer `
unfoldable pub bearer : List String → Option String
bearer (auth ∷ []) = if is_prefix (codes "Bearer ") (codes auth) then some (skip 7 auth) else none
bearer _ = none

-- `endswith`
unfoldable pub ends_with : List ℕ → List ℕ → Bool
ends_with needle [] = length needle == 0
ends_with needle (c ∷ cs) =
    let rest = ends_with needle cs in
    (length needle == length (c ∷ cs) && is_prefix needle (c ∷ cs)) || rest

-- the ownership of the paths under /agent/tasks/
unfoldable pub check_ownership :
    Surroundings → TenantContext → Matched → Manager → Result (Unit {0}) × Manager
check_ownership s context found m =
    if is_prefix (s.api ++ codes "/agent/tasks/") found.route_path
    then (let (r, m') = check_owned s.loaded context found.params m in (or_not_found r, m'))
    else (ok tt, m)

-- the surfaces that are never served
unfoldable pub is_withheld : List ℕ → Bool
is_withheld route_path =
    contains (codes "/coding/") route_path
    || contains (codes "/approvals/") route_path
    || ends_with (codes "/analytics/metrics") route_path
    || ends_with (codes "/agent/metrics") route_path

-- the permissions of the route, and the role that budgets need
unfoldable pub check_rule : List String → TenantContext → Result (Unit {0})
check_rule permissions context =
    if not (Security.has_all_permissions context permissions)
    then err (http_exception 403)
    else if mem_str "finops:write" permissions && not (mem_str "tenant_admin" context.roles)
    then err (http_exception 403)
    else ok tt

abbrev admit :
    TenantContext → AuthorityLease → Matched → Result (Unit {0}) × Manager → Gate × Manager
admit context l found (err e, m) = (refused e, m)
admit context l found (ok _, m) =
    if is_withheld found.route_path
    then (refused (http_exception 503), m)
    else (served context l, m)

-- a user route, once the caller is known
unfoldable pub serve_user :
    Surroundings → List String → Matched → TenantContext → AuthorityLease → Manager → Gate × Manager
serve_user s permissions found context l m = elim (check_rule permissions context) [
  | err e ↦ (refused e, m)
  | ok _ ↦
      admit context (record l { operation_permissions = permissions }) found
        (check_ownership s context found m)
]

-- a user route: one Bearer header, the identity behind it, then the checks above
unfoldable pub authorize_user :
    Surroundings → List String → Request → Matched → Manager → Gate × Manager
authorize_user s permissions r found m = elim (bearer r.authorization) [
  | none ↦ (refused (http_exception 401), m)
  | some token ↦
      elim (get_current_tenant s.kid_of s.moment s.answer r.correlation_id none (some token)) [
        | err e ↦ (refused e, m)
        | ok (context, l) ↦ serve_user s permissions found context l m
      ]
]

-- by the rule of the route; no rule is 503
unfoldable pub authorize : Surroundings → Request → Matched → Option Rule → Manager → Gate × Manager
authorize s r found none m = (refused (http_exception 503), m)
authorize s r found (some public_route) m = (passed, m)
authorize s r found (some payment_signature) m = (passed, m)
authorize s r found (some operator_route) m =
    if str_eq s.operator_metrics_secret ""
      || not (str_eq r.operator_secret s.operator_metrics_secret)
    then (refused (http_exception 404), m)
    else (passed, m)
authorize s r found (some (user_route permissions)) m = authorize_user s permissions r found m

abbrev is_preflight : Request → Bool
is_preflight r = str_eq r.method "OPTIONS" && r.has_origin && r.has_requested_method

abbrev document_paths : List String
document_paths = "/docs" ∷ "/docs/oauth2-redirect" ∷ "/redoc" ∷ "/openapi.json" ∷ []

-- a request over HTTP
unfoldable pub gate_http : Surroundings → Request → Option Matched → Manager → Gate × Manager
gate_http s r matched m =
    if is_preflight r || is_one_of document_paths r.path then (passed, m) else elim matched [
      | none ↦ (refused (http_exception 404), m)
      | some found ↦ authorize s r found (policy_for s.api r.method found.route_path) m
    ]

unfoldable pub gate : Surroundings → Request → Option Matched → Manager → Gate × Manager
gate s r matched m = elim r.scope_type [
  | other_scope ↦ (passed, m)
  | websocket ↦ (closed, m)
  | http ↦ gate_http s r matched m
]
