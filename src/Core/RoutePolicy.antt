-- ===== src/Core/RoutePolicy.antt =====
-- core/route_policy.py: the policy of the routes (USER_POLICY and policy_for). Paths are code points;
-- `api` is the setting API_V1_STR.
pub mod Ownership
pub mod Gate
pub mod Owned
pub mod Admission
mod Tests
pub mod Stops
pub mod Delivery
use jake_ai.Prelude.{
  Bool, List, Option, String, [], any, codes, drop, if◌then◌else◌, is_prefix, length, none,
  same_codes, some, str_eq, ℕ, ◌&&◌, ◌++◌, ◌==◌, ◌∷◌,
}

-- `USER_POLICY`: method, route template, permissions
abbrev pub user_policy : List (String × String × List String)
user_policy =
    ("POST", "/chat/stream", "chat:write" ∷ "rag:read" ∷ [])
    ∷ ("POST", "/rag/ingest", "rag:write" ∷ [])
    ∷ ("GET", "/rag/tasks/{task_id}", "rag:read" ∷ [])
    ∷ ("POST", "/rag/query", "rag:read" ∷ [])
    ∷ ("POST", "/rag/generate", "rag:read" ∷ "chat:write" ∷ [])
    ∷ ("POST", "/devops/audit-pr", "agent:execute" ∷ [])
    ∷ ("POST", "/devops/changelog", "agent:execute" ∷ [])
    ∷ ("POST", "/gateway/chat/completions", "chat:write" ∷ [])
    ∷ ("GET", "/gateway/models", "chat:read" ∷ [])
    ∷ ("GET", "/gateway/quotas", "finops:read" ∷ [])
    ∷ ("POST", "/gateway/quotas", "finops:write" ∷ [])
    ∷ ("GET", "/billing/subscription", "finops:read" ∷ [])
    ∷ ("GET", "/analytics/dashboard", "ops:read" ∷ [])
    ∷ ("GET", "/analytics/metrics", "ops:read" ∷ [])
    ∷ ("GET", "/finops/summary", "finops:read" ∷ [])
    ∷ ("GET", "/finops/transactions", "finops:read" ∷ [])
    ∷ ("GET", "/finops/budget", "finops:read" ∷ [])
    ∷ ("POST", "/finops/budget", "finops:write" ∷ [])
    ∷ ("GET", "/finops/reconciliation", "finops:read" ∷ [])
    ∷ ("POST", "/coding/tool-result", "agent:execute" ∷ [])
    ∷ ("POST", "/coding/resume", "agent:execute" ∷ [])
    ∷ ("POST", "/agent/tasks", "agent:write" ∷ [])
    ∷ ("GET", "/agent/tasks/{task_id}", "agent:read" ∷ [])
    ∷ ("POST", "/agent/tasks/{task_id}/runs", "agent:execute" ∷ [])
    ∷ ("GET", "/agent/tasks/{task_id}/runs/{run_id}", "agent:read" ∷ [])
    ∷ ("GET", "/agent/tasks/{task_id}/runs/{run_id}/events", "agent:read" ∷ [])
    ∷ ("POST", "/agent/tasks/{task_id}/runs/{run_id}/cancel", "agent:write" ∷ [])
    ∷ ("POST", "/agent/tasks/{task_id}/runs/{run_id}/approvals/{approval_id}", "agent:approve" ∷ [])
    ∷ ("GET", "/agent/approvals/pending", "agent:approve" ∷ [])
    ∷ ("GET", "/agent/metrics", "ops:read" ∷ [])
    ∷ ("POST", "/byok/keys", "byok:write" ∷ [])
    ∷ ("GET", "/byok/keys", "byok:read" ∷ [])
    ∷ ("POST", "/byok/keys/validate", "byok:write" ∷ [])
    ∷ ("POST", "/byok/keys/{provider}/validate", "byok:write" ∷ [])
    ∷ ("POST", "/byok/keys/{provider}/rotate", "byok:write" ∷ [])
    ∷ ("POST", "/byok/keys/{provider}/revoke", "byok:write" ∷ [])
    ∷ ("DELETE", "/byok/keys/{provider}", "byok:write" ∷ [])
    ∷ []

-- What the policy says of a route that it knows.
pub data Rule : Type 0 where
  public_route operator_route payment_signature : Rule
  user_route : List String → Rule

abbrev pub is_one_of : List String → List ℕ → Bool
is_one_of names path = any (λ name. same_codes path (codes name)) names

-- `rsplit("/", 1)[-1]`: what follows the last slash
unfoldable pub last_part_onto : List ℕ → List ℕ → List ℕ
last_part_onto acc [] = acc
last_part_onto acc (c ∷ cs) = last_part_onto (if c == b'/' then [] else acc ++ (c ∷ [])) cs

unfoldable pub find_rule : String → List ℕ → List (String × String × List String) → Option Rule
find_rule method path [] = none
find_rule method path ((m, route, permissions) ∷ rows) =
    let rest = find_rule method path rows in
    if str_eq m method && same_codes path (codes route) then some (user_route permissions) else rest

-- the path without the prefix of the API
unfoldable pub suffix_of : List ℕ → List ℕ → List ℕ
suffix_of api path = if is_prefix (api ++ codes "/") path then drop (length api) path else path

-- the aliases of the gateway and of the internal coding routes
unfoldable pub unaliased : List ℕ → List ℕ
unaliased path =
    let suffix = if is_prefix (codes "/v1/") path then codes "/gateway" ++ drop 3 path else path in
    if is_prefix (codes "/internal/v1/coding/") suffix
    then codes "/coding/" ++ last_part_onto [] suffix
    else suffix

abbrev pub public_paths : List String
public_paths =
    "/health" ∷ "/health/live" ∷ "/docs" ∷ "/docs/oauth2-redirect" ∷ "/redoc" ∷ "/openapi.json" ∷ []

unfoldable pub policy_for : List ℕ → String → List ℕ → Option Rule
policy_for api method path =
    let suffix = suffix_of api path in
    if is_one_of public_paths suffix
    then some public_route
    else if is_one_of ("/health/ready" ∷ "/metrics" ∷ []) suffix
    then some operator_route
    else if same_codes suffix (codes "/billing/webhook")
    then some payment_signature
    else find_rule method (unaliased suffix) user_policy
