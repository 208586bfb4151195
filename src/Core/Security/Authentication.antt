-- ===== src/Core/Security/Authentication.antt =====
-- What stands behind the identity of a request.
use jake_ai.Prelude.{
  Option, Result, String, ap, arith, bind-ok, none, ok, some, subst, sym, true, ◌∙◌, ◌≡◌,
}
use jake_ai.Core.Identity.Claims.{Claims}
use jake_ai.Core.Identity.Access.{verify_access}
use jake_ai.Core.Identity.Soundness.{Verified, Signed, verify_access-Verified}
use jake_ai.Core.Authority.{AuthorityLease, Moment, lease_of, check, begin_check, finish_check}
use jake_ai.Core.Authority.Introspection.{Response}
use jake_ai.Core.Authority.Effects.{Confirms, forced_check-Confirms}
use jake_ai.Core.Security.{TenantContext, get_current_tenant, verified_identity, context_of}

-- The identity and the lease of a request that was authenticated with a token.
pub record Authenticated (m : Moment) (r : Option Response) (token : String)
    (context : TenantContext) (l : AuthorityLease) : Type 0 where
  pub tenant : context.tenant_id ≡ l.claims.tid
  pub user : context.user_id ≡ l.claims.sub
  pub permissions : context.permissions ≡ l.claims.perms
  pub own_token : l.token ≡ token
  pub not_denied : l.denial ≡ none
  pub verified : Verified m.now l.claims
  pub signed : Signed m.lib m.settings m.now token
  pub confirmed : Confirms m.lib m.now l.claims r

verified_identity-ok :
    (m : Moment) (correlation_id token : String) (context : TenantContext) (c : Claims)
    → verified_identity m correlation_id token ≡ ok (context, c)
    → (verify_access m.lib m.settings m.now token ≡ ok c) × (context ≡ context_of correlation_id c)
unfolding verified_identity
verified_identity-ok m correlation_id token context c h = ground arith

lease_of-ok :
    (m : Moment) (token kid : String) (c : Claims) (l : AuthorityLease)
    → lease_of m token kid c ≡ ok l
    → (l.claims ≡ c) × (l.token ≡ token)
unfolding lease_of
lease_of-ok m token kid c l h = ground arith

checked_lease :
    (m : Moment) (r : Option Response) (l : AuthorityLease)
    → (check m true r l).0 ≡ ok tt
    → ((check m true r l).1.claims ≡ l.claims)
      × ((check m true r l).1.token ≡ l.token)
      × ((check m true r l).1.denial ≡ none)
unfolding check begin_check finish_check
checked_lease m r l h = ground arith

ok_pair-injective :
    {A B : Type 0} {a a' : A} {b b' : B}
    → ◌≡◌ {A = Result (A × B)} (ok (a, b)) (ok (a', b'))
    → (a ≡ a') × (b ≡ b')
ok_pair-injective h = ground arith

assemble :
    (kid : String) (m : Moment) (r : Option Response) (correlation_id token : String)
    (context : TenantContext) (c : Claims) (fresh : AuthorityLease)
    → verified_identity m correlation_id token ≡ ok (context, c)
    → lease_of m token kid c ≡ ok fresh
    → (check m true r fresh).0 ≡ ok tt
    → Authenticated m r token context (check m true r fresh).1
unfolding context_of check
assemble kid m r correlation_id token context c fresh known leased checked =
    let (accepted, named) = verified_identity-ok m correlation_id token context c known in
    let (of_claims, of_token) = lease_of-ok m token kid c fresh leased in
    let (claims, own, clean) = checked_lease m r fresh checked in
    let same : (check m true r fresh).1.claims ≡ c = claims ∙ of_claims in
    let (whole, signature) = verify_access-Verified m.lib m.settings m.now token c accepted in
    record {
      tenant =
          ap (λ (x : TenantContext). x.tenant_id) named ∙ ap (λ (x : Claims). x.tid) (sym same);
      user = ap (λ (x : TenantContext). x.user_id) named ∙ ap (λ (x : Claims). x.sub) (sym same);
      permissions =
          ap (λ (x : TenantContext). x.permissions) named ∙ ap (λ (x : Claims). x.perms) (sym same);
      own_token = own ∙ of_token;
      not_denied = clean;
      verified = subst (λ x. Verified m.now x) (sym same) whole;
      signed = signature;
      confirmed =
          subst (λ x. Confirms m.lib m.now x r) (sym claims)
            (forced_check-Confirms m r fresh checked);
    }

-- A token that authenticates a request is accepted by the verification, the identity of the request
-- is that of its claims, and the authority confirms it in this very call.
pub get_current_tenant-Authenticated :
    (kid_of : String → String) (m : Moment) (r : Option Response) (correlation_id token : String)
    (context : TenantContext) (l : AuthorityLease)
    → get_current_tenant kid_of m r correlation_id none (some token) ≡ ok (context, l)
    → Authenticated m r token context l
unfolding get_current_tenant
get_current_tenant-Authenticated kid_of m r correlation_id token context l h =
    let ((ctx, c), known, h1) =
      bind-ok (verified_identity m correlation_id token) _ (context, l) h in
    let (fresh, leased, h2) = bind-ok (lease_of m token (kid_of token) c) _ (context, l) h1 in
    let (_, checked, h3) = bind-ok (check m true r fresh).0 _ (context, l) h2 in
    let (same_context, same_lease) = ok_pair-injective h3 in
    subst (λ x. Authenticated m r token x l) same_context
      (subst (λ x. Authenticated m r token ctx x) same_lease
        (assemble (kid_of token) m r correlation_id token ctx c fresh known leased checked))
