-- ===== src/Core/RoutePolicy/Delivery.antt =====
-- The delivery of `AuthorizationMiddleware` in core/route_policy.py, for an application that a refused
-- send stops: what it sends is passed on under the lease of the request, which is checked before every
-- part of a response and, with force, whenever ten seconds pass without an end.
use jake_ai.Prelude.{
  Bool, Exc, List, Option, Result, String, [], err, false, if◌then◌else◌, ok, true, ℕ, ◌||◌, ◌∷◌,
}
use jake_ai.Core.Authority.{AuthorityLease, Moment, check}
use jake_ai.Core.Authority.Introspection.{Response}

pub data Message : Type 0 where
  response_start : ℕ → Message
  response_body : List ℕ → Bool → Message
  other_message : String → Message

-- What happens while the application runs, with the moment and what the authority would answer.
pub data Happening : Type 0 where
  sends : Moment → Option Response → Message → Happening
  waits : Moment → Option Response → Happening

-- What the client gets: a message of the application, an end of the body, or an error document.
pub data Delivered : Type 0 where
  forwarded : Message → Delivered
  end_of_body : Delivered
  error_document : Exc → Delivered

abbrev pub is_start : Message → Bool
is_start (response_start _) = true
is_start _ = false

-- `http.response.start` and `http.response.body`
abbrev pub is_response : Message → Bool
is_response (other_message _) = false
is_response _ = true

-- what is sent when a check fails
abbrev pub stopped : Bool → Exc → List Delivered
stopped true e = end_of_body ∷ []
stopped false e = error_document e ∷ []

-- what is delivered, `more` where the check passes
abbrev pub go_on : Bool → Result (Unit {0}) → List Delivered → List Delivered
go_on started (err e) more = stopped started e
go_on started (ok _) more = more

-- `guarded_send` before it sends
unfoldable pub guard :
    Moment → Option Response → Message → AuthorityLease → Result (Unit {0}) × AuthorityLease
guard m r message l = if is_response message then check m false r l else (ok tt, l)

unfoldable pub deliver : List Happening → Bool → AuthorityLease → List Delivered
deliver [] started l = []
deliver (sends m r message ∷ rest) started l =
    let (checked, l') = guard m r message l in
    let more = deliver rest (started || is_start message) l' in
    go_on started checked (forwarded message ∷ more)
deliver (waits m r ∷ rest) started l =
    let (checked, l') = check m true r l in
    let more = deliver rest started l' in go_on started checked more
