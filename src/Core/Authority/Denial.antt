-- ===== src/Core/Authority/Denial.antt =====
-- A denial is final, whatever the order in which the checks of a request run.
use jake_ai.Prelude.{All, Bool, Exc, List, Result, [], err, ok, refl, some, ◌∷◌, ◌≡◌}
use jake_ai.Core.Authority.{
  AuthorityLease, Moment, Progress, ended, asking, begin_check, finish_check,
}

-- The steps of the checks of a request, in the order in which they happen.
pub data Event : Type 0 where
  begins : Moment → Bool → Event
  finishes : Moment → Result (Unit {0}) → Event

-- what an event gives, and the lease after it
unfoldable pub happen : Event → AuthorityLease → Progress × AuthorityLease
unfolding begin_check finish_check
happen (begins m force) l = begin_check m force l
happen (finishes m answer) l = let (r, l') = finish_check m answer l in (ended r, l')

unfoldable pub outcomes : List Event → AuthorityLease → List Progress
outcomes [] l = []
outcomes (e ∷ es) l = let (p, l') = happen e l in p ∷ outcomes es l'

-- a check that ended with an exception
abbrev pub Refused : Progress → Type 0
Refused (ended (err e)) = Unit
Refused (ended (ok _)) = ⊥
Refused asking = ⊥

happen-Refused :
    (event : Event) (l : AuthorityLease) (e : Exc)
    → l.denial ≡ some e
    → Refused (happen event l).0 × ((d : Exc) × ((happen event l).1.denial ≡ some d))
unfolding happen begin_check finish_check
happen-Refused (begins m force) l e h = rw h (tt, (e, refl))
happen-Refused (finishes m (err d)) l e h = (tt, (d, refl))
happen-Refused (finishes m (ok _)) l e h = rw h (tt, (e, refl))

-- Once a lease is denied, every check that begins and every check that was waiting for the authority
-- ends with an exception, in whatever order they do and whatever the authority answers.
pub denial_is_final :
    (events : List Event) (l : AuthorityLease) (e : Exc)
    → l.denial ≡ some e
    → All Refused (outcomes events l)
unfolding outcomes
denial_is_final [] l e h = tt
denial_is_final (event ∷ events) l e h =
    let (refused, (d, h')) = happen-Refused event l e h in
    (refused, denial_is_final events (happen event l).1 d h')
