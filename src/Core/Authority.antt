-- ===== src/Core/Authority.antt =====
-- core/identity_state.py: the lease that a request holds on the authority of its user, and the
-- checks before an effect. The wall clock and the monotonic clock are milliseconds. A check that
-- asks the identity authority is two steps, up to the call and after it, since other checks of the
-- same request run while it waits; `check` is the two steps with nothing between.
pub mod Introspection
pub mod Sample
mod Tests
pub mod Effects
pub mod Denial
use Prim.Native.String.{◌++◌ as concat}
use jake_ai.Prelude.{
  Bool, Dict, Exc, List, Option, Result, String, [], all, err, false, http_exception, if◌then◌else◌,
  is_some, key_error, leb, length, lookup, ltb, mem_str, none, not, ok, some, str_eq, true, ℕ, ◌&&◌,
  ◌*◌, ◌++◌, ◌+◌, ◌==◌, ◌>>=◌, ◌||◌,
}
use jake_ai.Core.Identity.{Library, Settings, Key, configured_keys}
use jake_ai.Core.Identity.Claims.{Claims}
use jake_ai.Core.Authority.Introspection.{Response, check_state}

pub record AuthorityLease : Type 0 where
  pub token : String
  pub claims : Claims
  pub checked_monotonic : ℕ
  pub signing_kid : String
  pub signing_fingerprint : String
  pub denial : Option Exc
  pub operation_permissions : List String

-- what the process has at a time: the library, the settings and the clocks
pub record Moment : Type 0 where
  pub lib : Library
  pub settings : Settings
  pub now : ℕ
  pub monotonic : ℕ

-- the lease of a token under the key that its header names
unfoldable pub lease_of : Moment → String → String → Claims → Result AuthorityLease
lease_of m token kid claims = do
  keys ← configured_keys m.lib m.settings m.now
  elim (lookup kid keys) [
    | none ↦ err key_error
    | some key ↦ ok (record {
      token = token;
      claims = claims;
      checked_monotonic = 0;
      signing_kid = kid;
      signing_fingerprint = m.lib.digest key;
      denial = none;
      operation_permissions = [];
    })
  ]

-- the key is still the one that signed
abbrev pub same_key : Moment → AuthorityLease → Result (Dict Key) → Bool
same_key m l (err e) = false
same_key m l (ok keys) = elim (lookup l.signing_kid keys) [
  | none ↦ false
  | some key ↦ str_eq (m.lib.digest key) l.signing_fingerprint
]

unfoldable pub is_valid : Moment → AuthorityLease → Bool
is_valid m l =
    same_key m l (configured_keys m.lib m.settings m.now)
    && ltb m.now ((l.claims.exp + 30) * 1000)
    && leb (l.claims.nbf * 1000) (m.now + 30000)
    && leb (l.claims.iat * 1000) (m.now + 30000)

pub data Progress : Type 0 where
  ended : Result (Unit {0}) → Progress
  asking : Progress

-- `AuthorityLease.check` up to the call of the authority
unfoldable pub begin_check : Moment → Bool → AuthorityLease → Progress × AuthorityLease
begin_check m force l = elim l.denial [
  | some e ↦ (ended (err e), l)
  | none ↦
      if not (is_valid m l)
      then (ended (err (http_exception 401)), record l { denial = some (http_exception 401) })
      else if force || leb (l.checked_monotonic + 10000) m.monotonic
      then (asking, l)
      else (ended (ok tt), l)
]

-- and after it: `answer` is what the call returned or raised
unfoldable pub finish_check :
    Moment → Result (Unit {0}) → AuthorityLease → Result (Unit {0}) × AuthorityLease
finish_check m (err e) l = (err e, record l { denial = some e })
finish_check m (ok _) l = elim l.denial [
  | some e ↦ (err e, l)
  | none ↦ (ok tt, record l { checked_monotonic = m.monotonic })
]

abbrev finish_if_asking :
    Moment → Option Response → Progress × AuthorityLease → Result (Unit {0}) × AuthorityLease
finish_if_asking m response (ended r, l) = (r, l)
finish_if_asking m response (asking, l) =
    finish_check m (check_state m.lib m.now l.claims response) l

unfoldable pub check :
    Moment → Bool → Option Response → AuthorityLease → Result (Unit {0}) × AuthorityLease
check m force response l = finish_if_asking m response (begin_check m force l)

-- `all(p in perms ...)`
unfoldable pub grants : List String → List String → Bool
grants perms required = all (λ p. mem_str p perms) required

-- the tests of `authorize_effect` on a checked lease
unfoldable pub authorize_checked : List String → AuthorityLease → Result (Unit {0})
authorize_checked permissions l =
    if length l.operation_permissions == 0
    then err (http_exception 503)
    else if not (grants l.claims.perms (l.operation_permissions ++ permissions))
    then err (http_exception 403)
    else ok tt

-- `current_authority`, which a context variable holds, is passed and given back
unfoldable pub authorize_effect :
    Moment
    → Option Response
    → List String
    → Option AuthorityLease
    → Result (Unit {0}) × Option AuthorityLease
authorize_effect m response permissions none = (err (http_exception 503), none)
authorize_effect m response permissions (some l) =
    let (checked, l') = check m true response l in
    (checked >>= λ _. authorize_checked permissions l', some l')

abbrev of_tenant : String → Option AuthorityLease → Bool
of_tenant tenant_id none = true
of_tenant tenant_id (some l) = str_eq tenant_id l.claims.tid

-- `environment` is lower case
unfoldable pub authorize_bound_effect :
    Moment
    → Option Response
    → String
    → String
    → List String
    → Option AuthorityLease
    → Result (Unit {0}) × Option AuthorityLease
authorize_bound_effect m response environment tenant_id permissions current =
    if not (is_some current) && not (str_eq environment "production")
    then (ok tt, current)
    else if not (of_tenant tenant_id current)
    then (err (http_exception 404), current)
    else authorize_effect m response permissions current

-- what separates two principals
pub record Principal : Type 0 where
  pub tid : String
  pub sub : String
  pub sid : String
  pub jti : String
  pub pwdver : ℕ
  pub auth_epoch : ℕ
  pub perms : List String

unfoldable pub principal_of : Claims → Principal
principal_of c = record {
  tid = c.tid;
  sub = c.sub;
  sid = c.sid;
  jti = c.jti;
  pwdver = c.pwdver;
  auth_epoch = c.auth_epoch;
  perms = c.perms;
}

-- `dumps` is `json.dumps` of a principal, as code points
unfoldable pub principal_namespace :
    Library → (Principal → List ℕ) → String → Option AuthorityLease → Result String
principal_namespace lib dumps tenant_id none = ok tenant_id
principal_namespace lib dumps tenant_id (some l) =
    if not (str_eq tenant_id l.claims.tid)
    then err (http_exception 404)
    else ok (concat "principal:" (lib.digest (dumps (principal_of l.claims))))
