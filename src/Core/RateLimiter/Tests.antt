-- ===== src/Core/RateLimiter/Tests.antt =====
-- Two clients at a limiter of one token a second and a burst of two.
use jake_ai.Prelude.{List, String, [], arith, ℕ, ◌*◌, ◌+◌, ◌-◌, ◌∷◌, ◌≤◌}
use jake_ai.Core.RateLimiter.{Limiter, token, level}
use jake_ai.Core.RateLimiter.Fairness.{passes, last_time, passes_bounded}

abbrev fresh : Limiter
fresh = record { rate_per_minute = 60; capacity = 2; store = [] }

abbrev calls : List (ℕ × String)
calls = (100, "a") ∷ (110, "a") ∷ (120, "b") ∷ (130, "a") ∷ (1500, "a") ∷ []

passes_bounded_example :
    passes "a" calls fresh * token ≤ level 100 "a" fresh + (last_time 100 calls - 100) * 60
passes_bounded_example =
    passes_bounded "a" calls 100 fresh _ (ground arith)
      (ground arith, (ground arith, (ground arith, (ground arith, (ground arith, _)))))
