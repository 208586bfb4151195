-- ===== src/Core/Security.antt =====
-- core/security.py and core/context.py: the identity that a request is served under.
pub mod Authentication
mod Tests
use jake_ai.Prelude.{
  Bool, List, Option, Result, String, [], all, err, http_exception, if◌then◌else◌, mem_str, none,
  not, ok, some, str_eq, true, ◌>>=◌, ◌∷◌,
}
use jake_ai.Core.Identity.Claims.{Claims}
use jake_ai.Core.Identity.Access.{verify_access}
use jake_ai.Core.Authority.{AuthorityLease, Moment, lease_of, check}
use jake_ai.Core.Authority.Introspection.{Response}

pub record TenantContext : Type 0 where
  pub tenant_id : String
  pub user_id : String
  pub explicit_tenant : Bool
  pub roles : List String
  pub permissions : List String
  pub correlation_id : String

unfoldable pub has_permission : TenantContext → String → Bool
has_permission context permission = mem_str permission context.permissions

unfoldable pub has_all_permissions : TenantContext → List String → Bool
has_all_permissions context required = all (λ p. mem_str p context.permissions) required

-- `[role] if role else []`
abbrev roles_of : Option String → List String
roles_of none = []
roles_of (some role) = if str_eq role "" then [] else role ∷ []

unfoldable pub context_of : String → Claims → TenantContext
context_of correlation_id c = record {
  tenant_id = c.tid;
  user_id = c.sub;
  explicit_tenant = true;
  roles = roles_of c.role;
  permissions = c.perms;
  correlation_id = correlation_id;
}

-- whatever the verification raises is 401
abbrev or_unauthorized : Result Claims → Result Claims
or_unauthorized (err _) = err (http_exception 401)
or_unauthorized (ok c) = ok c

unfoldable pub verified_identity : Moment → String → String → Result (TenantContext × Claims)
verified_identity m correlation_id token =
    or_unauthorized (verify_access m.lib m.settings m.now token) >>= λ c.
    ok (context_of correlation_id c, c)

-- the first check of a new lease, which the request then holds
abbrev first_check :
    Moment
    → Option Response
    → TenantContext
    → AuthorityLease
    → Result (TenantContext × AuthorityLease)
first_check m response context l =
    let (checked, l') = check m true response l in checked >>= λ _. ok (context, l')

-- `existing` is what an earlier call left on the request; `kid_of` reads the key id of a token's
-- header (`jwt.get_unverified_header`). `credentials` is the token of the Bearer scheme, if any.
unfoldable pub get_current_tenant :
    (String → String)
    → Moment
    → Option Response
    → String
    → Option (TenantContext × AuthorityLease)
    → Option String
    → Result (TenantContext × AuthorityLease)
get_current_tenant kid_of m response correlation_id (some held) credentials = ok held
get_current_tenant kid_of m response correlation_id none none = err (http_exception 401)
get_current_tenant kid_of m response correlation_id none (some token) = do
  found ← verified_identity m correlation_id token
  l ← lease_of m token (kid_of token) found.1
  first_check m response found.0 l

unfoldable pub require_permissions : List String → TenantContext → Result TenantContext
require_permissions required context =
    if not (has_all_permissions context required) then err (http_exception 403) else ok context

-- `check_token_denylist`: the lease of the very token, checked again
unfoldable pub check_token_denylist :
    Moment
    → Option Response
    → String
    → Option AuthorityLease
    → Result (Unit {0}) × Option AuthorityLease
check_token_denylist m response token none = (err (http_exception 503), none)
check_token_denylist m response token (some l) =
    if not (str_eq l.token token)
    then (err (http_exception 503), some l)
    else let (checked, l') = check m true response l in (checked, some l')
