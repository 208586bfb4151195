-- ===== src/Core/RoutePolicy/Admission.antt =====
-- What a request has passed when the application serves it under a lease.
use jake_ai.Prelude.{
  Bool-cases, List, Option, Option-cases, Result-cases, String, arith, codes, false, inl, inr,
  is_prefix, mem_str, none, ok, refl, some, subst, sym, true, ◌++◌, ◌≡◌, ◌⊎◌,
}
use jake_ai.Core.Security
use jake_ai.Core.Security.{TenantContext, get_current_tenant}
use jake_ai.Core.Security.Authentication.{Authenticated, get_current_tenant-Authenticated}
use jake_ai.Core.Authority.{AuthorityLease}
use jake_ai.Core.RoutePolicy.{
  public_route, payment_signature, operator_route, user_route, policy_for, Rule,
}
use jake_ai.Core.RoutePolicy.Owned.{Owns, check_ownership-Owns}
use jake_ai.Core.RoutePolicy.Gate.{
  served, Surroundings, Request, Matched, bearer, is_withheld, check_rule, check_ownership,
  serve_user, authorize_user, authorize, gate, gate_http,
}
use jake_ai.Agent.Manager.{Manager}

-- What stands behind a request that is served.
pub record Admitted (s : Surroundings) (r : Request) (matched : Option Matched) (m : Manager)
    (context : TenantContext) (l : AuthorityLease) : Type 0 where
  pub found : Matched
  pub permissions : List String
  pub token : String
  pub at_route : matched ≡ some found
  pub by_policy : policy_for s.api r.method found.route_path ≡ some (user_route permissions)
  pub presented : bearer r.authorization ≡ some token
  pub authenticated : Authenticated s.moment s.answer token context l
  pub bound_to_route : l.operation_permissions ≡ permissions
  pub permitted : Security.has_all_permissions context permissions ≡ true
  pub budgets :
      (mem_str "finops:write" permissions ≡ false) ⊎ (mem_str "tenant_admin" context.roles ≡ true)
  pub not_withheld : is_withheld found.route_path ≡ false
  pub owns :
      (is_prefix (s.api ++ codes "/agent/tasks/") found.route_path ≡ false)
      ⊎ Owns s context found.params m

check_rule-ok :
    (permissions : List String) (context : TenantContext)
    → check_rule permissions context ≡ ok tt
    → (Security.has_all_permissions context permissions ≡ true)
      × ((mem_str "finops:write" permissions ≡ false)
          ⊎ (mem_str "tenant_admin" context.roles ≡ true))
unfolding check_rule
check_rule-ok permissions context h = (
  ground arith,
  elim (Bool-cases (mem_str "finops:write" permissions)) [
    | inl writes ↦ inr (ground arith)
    | inr reads ↦ inl reads
  ],
)

serve_user-served :
    (s : Surroundings) (permissions : List String) (found : Matched) (c context : TenantContext)
    (k l : AuthorityLease) (m m' : Manager)
    → serve_user s permissions found c k m ≡ (served context l, m')
    → (c ≡ context)
      × (l ≡ record k { operation_permissions = permissions })
      × (check_rule permissions c ≡ ok tt)
      × ((check_ownership s c found m).0 ≡ ok tt)
      × (is_withheld found.route_path ≡ false)
unfolding serve_user
serve_user-served s permissions found c context k l m m' h = ground arith

-- Binding a lease to a route changes nothing of what it says.
bound_lease :
    (s : Surroundings) (token : String) (c : TenantContext) (k : AuthorityLease)
    (permissions : List String)
    → Authenticated s.moment s.answer token c k
    → Authenticated s.moment s.answer token c (record k { operation_permissions = permissions })
bound_lease s token c k permissions h = record {
  tenant = h.tenant;
  user = h.user;
  permissions = h.permissions;
  own_token = h.own_token;
  not_denied = h.not_denied;
  verified = h.verified;
  signed = h.signed;
  confirmed = h.confirmed;
}

admitted :
    (s : Surroundings) (r : Request) (permissions : List String) (found : Matched) (token : String)
    (c context : TenantContext) (k l : AuthorityLease) (m m' : Manager)
    → policy_for s.api r.method found.route_path ≡ some (user_route permissions)
    → bearer r.authorization ≡ some token
    → Authenticated s.moment s.answer token c k
    → serve_user s permissions found c k m ≡ (served context l, m')
    → Admitted s r (some found) m context l
admitted s r permissions found token c context k l m m' policy shown known h =
    let (same, bound, ruled, owning, open_surface) =
      serve_user-served s permissions found c context k l m m' h in
    let (granted, finops) = check_rule-ok permissions c ruled in
    let at_c : Admitted s r (some found) m c (record k { operation_permissions = permissions }) =
      record {
        found = found;
        permissions = permissions;
        token = token;
        at_route = refl;
        by_policy = policy;
        presented = shown;
        authenticated = bound_lease s token c k permissions known;
        bound_to_route = refl;
        permitted = granted;
        budgets = finops;
        not_withheld = open_surface;
        owns = check_ownership-Owns s c found m owning;
      } in
    subst (λ x. Admitted s r (some found) m x l) same
      (subst (λ x. Admitted s r (some found) m c x) (sym bound) at_c)

user-Admitted :
    (s : Surroundings) (r : Request) (permissions : List String) (found : Matched)
    (context : TenantContext) (l : AuthorityLease) (m m' : Manager)
    → policy_for s.api r.method found.route_path ≡ some (user_route permissions)
    → authorize_user s permissions r found m ≡ (served context l, m')
    → Admitted s r (some found) m context l
unfolding authorize_user
user-Admitted s r permissions found context l m m' policy h =
    elim (Option-cases (bearer r.authorization)) [
      | inl missing ↦ ground arith
      | inr (token, shown) ↦
          elim (Result-cases
            (get_current_tenant s.kid_of s.moment s.answer r.correlation_id none (some token))) [
              | inl (e, refused) ↦ ground arith
              | inr ((c, k), known) ↦
                  admitted s r permissions found token c context k l m m' policy shown
                    (get_current_tenant-Authenticated s.kid_of s.moment s.answer r.correlation_id
                      token c k known)
                    (ground arith)
            ]
    ]

rule-Admitted :
    (s : Surroundings) (r : Request) (found : Matched) (rule : Option Rule)
    (context : TenantContext) (l : AuthorityLease) (m m' : Manager)
    → policy_for s.api r.method found.route_path ≡ rule
    → authorize s r found rule m ≡ (served context l, m')
    → Admitted s r (some found) m context l
unfolding authorize
rule-Admitted s r found none context l m m' policy h = ground arith
rule-Admitted s r found (some public_route) context l m m' policy h = ground arith
rule-Admitted s r found (some payment_signature) context l m m' policy h = ground arith
rule-Admitted s r found (some operator_route) context l m m' policy h = ground arith
rule-Admitted s r found (some (user_route permissions)) context l m m' policy h =
    user-Admitted s r permissions found context l m m' policy h

-- A request that is served under a lease is at a route of the policy, presents one Bearer token that
-- authenticates it, has every permission of the route (to which the lease is then bound) and the
-- administrator's role where the route writes budgets, is at none of the withheld surfaces, and names
-- only a task and a run of its own where the path is one of the agent's tasks.
pub served-Admitted :
    (s : Surroundings) (r : Request) (matched : Option Matched) (m m' : Manager)
    (context : TenantContext) (l : AuthorityLease)
    → gate s r matched m ≡ (served context l, m')
    → Admitted s r matched m context l
unfolding gate gate_http
served-Admitted s r none m m' context l h = ground arith
served-Admitted s r (some found) m m' context l h =
    rule-Admitted s r found (policy_for s.api r.method found.route_path) context l m m' refl
      (ground arith)
