-- ===== src/Core/Authority/Effects.antt =====
-- What stands behind an effect that is authorized.
use jake_ai.Core.Identity.{Library}
use jake_ai.Core.Identity.Claims.{Claims}
use jake_ai.Core.Json.{Json}
use jake_ai.Core.Identity.Access.{unique_object}
use jake_ai.Prelude.{
  Dict, List, Option, Result-cases, String, [], arith, inl, inr, length, lookup, none, ok, refl,
  some, true, ℕ, ◌++◌, ◌↔◌, ◌≡◌, ◌≢◌,
}
use jake_ai.Core.Authority.{
  AuthorityLease, Moment, begin_check, finish_check, check, is_valid, authorize_effect,
  authorize_checked, grants,
}
use jake_ai.Core.Authority.Introspection.{
  Response, check_state, or_unavailable, read_response, judge, read_body, names_identity, is_true,
  is_recent, is_brief,
}

effect_iff :
    (m : Moment) (r : Option Response) (permissions : List String) (l : AuthorityLease)
    → ((authorize_effect m r permissions (some l)).0 ≡ ok tt) ↔ (
        (l.denial ≡ none)
        × (is_valid m l ≡ true)
        × (check_state m.lib m.now l.claims r ≡ ok tt)
        × (length l.operation_permissions ≢ 0)
        × (grants l.claims.perms (l.operation_permissions ++ permissions) ≡ true))
unfolding authorize_effect authorize_checked check begin_check finish_check
effect_iff m r permissions l = ground arith

-- An answer of the authority that confirms the identity of the claims: it comes with status 200, says
-- that the credential is active, names every identifier of the claims, is at most five seconds old,
-- and may be kept for fifteen seconds at most.
abbrev pub Confirms : Library → ℕ → Claims → Option Response → Type 0
Confirms lib now c r =
    (answer : Response) × (body : List ℕ) × (d : Dict Json) × (r ≡ some answer)
    × (answer.status_code ≡ 200)
    × (read_body [] answer.chunks ≡ ok body)
    × (unique_object lib [] body ≡ ok d)
    × (names_identity c d ≡ true)
    × (is_true (lookup "active" d) ≡ true)
    × (is_recent now (lookup "checked_at" d) ≡ true)
    × (is_brief (lookup "max_cache_seconds" d) ≡ true)

check_state-Confirms :
    (lib : Library) (now : ℕ) (c : Claims) (r : Option Response)
    → check_state lib now c r ≡ ok tt
    → Confirms lib now c r
unfolding check_state or_unavailable read_response judge
check_state-Confirms lib now c none h = cc
check_state-Confirms lib now c (some answer) h = elim (Result-cases (read_body [] answer.chunks)) [
  | inl (e, f) ↦ ground arith
  | inr (body, f) ↦ elim (Result-cases (unique_object lib [] body)) [
    | inl (e, g) ↦ ground arith
    | inr (d, g) ↦ (
      answer,
      body,
      d,
      refl,
      ground arith,
      f,
      g,
      ground arith,
      ground arith,
      ground arith,
      ground arith,
    )
  ]
]

pub forced_check-Confirms :
    (m : Moment) (r : Option Response) (l : AuthorityLease)
    → (check m true r l).0 ≡ ok tt
    → Confirms m.lib m.now l.claims r
unfolding check begin_check finish_check
forced_check-Confirms m r l h = check_state-Confirms m.lib m.now l.claims r (ground arith)

-- An effect passes only under a lease that is neither denied nor out of date, bound to a route, whose
-- claims carry every permission of the route and of the effect, and that the authority confirms in
-- this very call.
pub effect_is_authorized :
    (m : Moment) (r : Option Response) (permissions : List String) (l : AuthorityLease)
    → (authorize_effect m r permissions (some l)).0 ≡ ok tt
    → (l.denial ≡ none)
      × (is_valid m l ≡ true)
      × (length l.operation_permissions ≢ 0)
      × (grants l.claims.perms (l.operation_permissions ++ permissions) ≡ true)
      × Confirms m.lib m.now l.claims r
effect_is_authorized m r permissions l h =
    let (clean, valid, confirmed, bound, permitted) = (effect_iff m r permissions l).0 h in
    (clean, valid, bound, permitted, check_state-Confirms m.lib m.now l.claims r confirmed)
