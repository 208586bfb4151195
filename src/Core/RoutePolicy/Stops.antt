-- ===== src/Core/RoutePolicy/Stops.antt =====
-- When and how a delivery stops.
use jake_ai.Prelude.{
  Bool, Bool-cases, Exc, List, Option, Option-cases, Result, Result-cases, [], ap, arith, err,
  false, http_exception, if◌then◌else◌, inl, inr, ok, refl, sym, true, ◌++◌, ◌||◌, ◌∷◌, ◌≡◌, ◌⊎◌,
}
use jake_ai.Core.Authority.{AuthorityLease, Moment, check, begin_check, finish_check, is_valid}
use jake_ai.Core.Authority.Introspection.{Response}
use jake_ai.Core.RoutePolicy.Delivery.{
  Happening, sends, waits, Delivered, forwarded, end_of_body, error_document, is_start, stopped,
  guard, deliver, go_on, Message, is_response,
}

-- what is done at a time: a message is guarded, a wait forces a check
abbrev pub happen : Happening → AuthorityLease → Result (Unit {0}) × AuthorityLease
happen (sends m r message) l = guard m r message l
happen (waits m r) l = check m true r l

-- Every check passes, and the lease is then the second.
pub data Passes : List Happening → AuthorityLease → AuthorityLease → Type 0 where
  nothing_left : {l : AuthorityLease} → Passes [] l l
  passed :
      {event : Happening} {rest : List Happening} {l l' : AuthorityLease}
      → (happen event l).0 ≡ ok tt
      → Passes rest (happen event l).1 l'
      → Passes (event ∷ rest) l l'

-- the messages of the application, as they are
abbrev pub sent : List Happening → List Delivered
sent [] = []
sent (sends m r message ∷ rest) = forwarded message ∷ sent rest
sent (waits m r ∷ rest) = sent rest

-- a response has started
abbrev pub has_started : Bool → List Happening → Bool
has_started started [] = started
has_started started (sends m r message ∷ rest) = has_started (started || is_start message) rest
has_started started (waits m r ∷ rest) = has_started started rest

-- Either every check passes, and the client gets what the application sends, or one fails, the first to
-- do so, and the client gets what was sent before it and then, as the last part, the end of the body
-- where the response has started, and the error document of the failure where it has not.
abbrev pub IsDelivery : Bool → AuthorityLease → List Happening → List Delivered → Type 0
IsDelivery started l events out =
    ((l' : AuthorityLease) × Passes events l l' × (out ≡ sent events))
    ⊎ ((before : List Happening) × (event : Happening) × (rest : List Happening)
        × (l' : AuthorityLease) × (e : Exc) × (events ≡ before ++ event ∷ rest)
        × Passes before l l'
        × ((happen event l').0 ≡ err e)
        × (out
            ≡ sent before
              ++ (if has_started started before then end_of_body else error_document e) ∷ []))

refused-IsDelivery :
    (started : Bool) (l : AuthorityLease) (event : Happening) (rest : List Happening) (e : Exc)
    → (happen event l).0 ≡ err e
    → IsDelivery started l (event ∷ rest) (stopped started e)
refused-IsDelivery true l event rest e h = inr ([], event, rest, l, e, refl, nothing_left, h, refl)
refused-IsDelivery false l event rest e h = inr ([], event, rest, l, e, refl, nothing_left, h, refl)

sends-IsDelivery :
    (m : Moment) (r : Option Response) (message : Message) (rest : List Happening) (started : Bool)
    (l : AuthorityLease) (out : List Delivered)
    → (happen (sends m r message) l).0 ≡ ok tt
    → IsDelivery (started || is_start message) (happen (sends m r message) l).1 rest out
    → IsDelivery started l (sends m r message ∷ rest) (forwarded message ∷ out)
sends-IsDelivery m r message rest started l out h (inl (l', all_pass, same)) =
    inl (l', passed h all_pass, ap (λ ds. forwarded message ∷ ds) same)
sends-IsDelivery m r message rest started l out h
      (inr (before, event, after, l', e, split, pass, refused, same)) =
    inr (
      sends m r message ∷ before,
      event,
      after,
      l',
      e,
      ap (λ es. sends m r message ∷ es) split,
      passed h pass,
      refused,
      ap (λ ds. forwarded message ∷ ds) same,
    )

waits-IsDelivery :
    (m : Moment) (r : Option Response) (rest : List Happening) (started : Bool) (l : AuthorityLease)
    (out : List Delivered)
    → (happen (waits m r) l).0 ≡ ok tt
    → IsDelivery started (happen (waits m r) l).1 rest out
    → IsDelivery started l (waits m r ∷ rest) out
waits-IsDelivery m r rest started l out h (inl (l', all_pass, same)) =
    inl (l', passed h all_pass, same)
waits-IsDelivery m r rest started l out h
      (inr (before, event, after, l', e, split, pass, refused, same)) =
    inr (
      waits m r ∷ before,
      event,
      after,
      l',
      e,
      ap (λ es. waits m r ∷ es) split,
      passed h pass,
      refused,
      same,
    )

-- Whatever an application that a refused send stops sends, and whatever the authority answers: where every check passes, the
-- client gets what the application sends; where one fails, the client gets what was sent before the
-- first that does, and then a last part, the end of the body where the response has started, and the
-- error document of that very failure where it has not.
pub deliver-IsDelivery :
    (events : List Happening) (started : Bool) (l : AuthorityLease)
    → IsDelivery started l events (deliver events started l)
unfolding deliver
deliver-IsDelivery [] started l = inl (l, nothing_left, refl)
deliver-IsDelivery (sends m r message ∷ rest) started l =
    elim (Result-cases (guard m r message l).0) [
      | inl (e, refused) ↦
          rw refused (refused-IsDelivery started l (sends m r message) rest e refused)
      | inr (_, fine) ↦ rw fine (
          sends-IsDelivery m r message rest started l _ fine
            (deliver-IsDelivery rest (started || is_start message) (guard m r message l).1))
    ]
deliver-IsDelivery (waits m r ∷ rest) started l = elim (Result-cases (check m true r l).0) [
  | inl (e, refused) ↦ rw refused (refused-IsDelivery started l (waits m r) rest e refused)
  | inr (_, fine) ↦ rw fine (
      waits-IsDelivery m r rest started l _ fine
        (deliver-IsDelivery rest started (check m true r l).1))
]

-- What the validity of a lease depends on.
abbrev pub SameCredential : AuthorityLease → AuthorityLease → Type 0
SameCredential l l' =
    (l.claims ≡ l'.claims)
    × (l.signing_kid ≡ l'.signing_kid)
    × (l.signing_fingerprint ≡ l'.signing_fingerprint)

check-SameCredential :
    (m : Moment) (force : Bool) (r : Option Response) (l : AuthorityLease)
    → SameCredential l (check m force r l).1
unfolding check begin_check finish_check
check-SameCredential m force r l = ground arith

guard-SameCredential :
    (m : Moment) (r : Option Response) (message : Message) (l : AuthorityLease)
    → SameCredential l (guard m r message l).1
unfolding guard
guard-SameCredential m r message l = elim (Bool-cases (is_response message)) [
  | inl part ↦ rw part (check-SameCredential m false r l)
  | inr none_of_it ↦ rw none_of_it (refl, refl, refl)
]

is_valid-SameCredential :
    (m : Moment) (l l' : AuthorityLease)
    → SameCredential l l'
    → is_valid m l ≡ false
    → is_valid m l' ≡ false
unfolding is_valid
is_valid-SameCredential m l l' (claims, kid, fingerprint) h =
    rw (sym claims, sym kid, sym fingerprint) h

invalid_refused :
    (m : Moment) (force : Bool) (r : Option Response) (l : AuthorityLease)
    → is_valid m l ≡ false
    → (e : Exc) × ((check m force r l).0 ≡ err e)
unfolding check begin_check
invalid_refused m force r l h = elim (Option-cases l.denial) [
  | inl clean ↦ (http_exception 401, ground arith)
  | inr (e, denied) ↦ (e, ground arith)
]

-- How one delivery goes on from another: not at all, or by a stop.
abbrev pub Stops : List Delivered → List Delivered → Type 0
Stops before after = (after ≡ before) ⊎ ((b : Bool) × (e : Exc) × (after ≡ before ++ stopped b e))

go_on-Stops :
    (started : Bool) (checked : Result (Unit {0})) (before after : List Delivered)
    → Stops before after
    → Stops (go_on started checked before) (go_on started checked after)
go_on-Stops started (err e) before after h = inl refl
go_on-Stops started (ok _) before after h = h

forwarded-Stops :
    (message : Message) (before after : List Delivered)
    → Stops before after
    → Stops (forwarded message ∷ before) (forwarded message ∷ after)
forwarded-Stops message before after (inl same) = inl (ap (λ ds. forwarded message ∷ ds) same)
forwarded-Stops message before after (inr (b, e, h)) =
    inr (b, e, ap (λ ds. forwarded message ∷ ds) h)

-- A part of a response that an application which a refused send stops sends while the credential is out of date, or its key is
-- no longer in force, is not delivered, and nothing after it is: the delivery is what went before, and
-- at most a stop.
pub expired_credential-Stops :
    (before rest : List Happening) (m : Moment) (r : Option Response) (message : Message)
    (started : Bool) (l : AuthorityLease)
    → is_response message ≡ true
    → is_valid m l ≡ false
    → Stops (deliver before started l) (deliver (before ++ sends m r message ∷ rest) started l)
unfolding deliver guard
expired_credential-Stops [] rest m r message started l part expired =
    let (e, refused) = invalid_refused m false r l expired in
    inr (started, e, rw (part, refused) refl)
expired_credential-Stops (sends n q first ∷ before) rest m r message started l part expired =
    let (checked, l') = guard n q first l in
    go_on-Stops started checked _ _ (
      forwarded-Stops first _ _ (
        expired_credential-Stops before rest m r message (started || is_start first) l' part
          (is_valid-SameCredential m l l' (guard-SameCredential n q first l) expired)))
expired_credential-Stops (waits n q ∷ before) rest m r message started l part expired =
    let (checked, l') = check n true q l in
    go_on-Stops started checked _ _ (
      expired_credential-Stops before rest m r message started l' part
        (is_valid-SameCredential m l l' (check-SameCredential n true q l) expired))
