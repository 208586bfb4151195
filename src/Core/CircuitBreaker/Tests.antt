-- ===== src/Core/CircuitBreaker/Tests.antt =====
-- A breaker that trips, cools down and closes again.
use jake_ai.Prelude.{List, [], arith, err, not, ok, refl, some, value_error, ℕ, ◌∷◌, ◌≡◌}
use jake_ai.Core.CircuitBreaker.{CircuitBreaker, closed, opened, call_with_fallback}
use jake_ai.Core.CircuitBreaker.Trips.{Event, availability, success, failure}
use jake_ai.Core.CircuitBreaker.Chain.{
  probes, first_success, is_cooling, call_with_fallback_lem, recovery_closes,
}

abbrev fresh : CircuitBreaker
fresh = record {
  failure_threshold = 3;
  recovery_timeout = 30;
  half_open_success_threshold = 2;
  state = closed;
  failure_count = 1;
  success_count = 0;
  last_state_change = 0;
  total_fallback_calls = 0;
}

abbrev tripped : CircuitBreaker
tripped = record fresh { state = opened; failure_count = 3; last_state_change = 10 }

abbrev events : List Event
events = failure 5 ∷ failure 10 ∷ availability 50 ∷ success 51 ∷ []

call_with_fallback_lem_example :
    (call_with_fallback {A = ℕ} 20 21 (ok 1) (some (err value_error)) (some (ok 7)) tripped).0
    ≡ first_success {A = ℕ}
        (not (is_cooling 20 tripped))
        (ok 1)
        (some (err value_error))
        (some (ok 7))
call_with_fallback_lem_example =
    call_with_fallback_lem {A = ℕ} 20 21 (ok 1) (some (err value_error)) (some (ok 7)) tripped

recovery_closes_example :
    ((probes {A = ℕ} ((40, 41, 1) ∷ (42, 43, 2) ∷ []) tripped).state ≡ closed)
    × ((probes {A = ℕ} ((40, 41, 1) ∷ (42, 43, 2) ∷ []) tripped).failure_count ≡ 0)
recovery_closes_example =
    recovery_closes {A = ℕ} 40 41 1 ((42, 43, 2) ∷ []) tripped refl (ground arith) (ground arith)
