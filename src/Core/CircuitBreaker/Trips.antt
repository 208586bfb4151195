-- ===== src/Core/CircuitBreaker/Trips.antt =====
-- When the breaker opens, and what it keeps to between its calls.
use jake_ai.Prelude.{
  Bool-cases, List, [], arith, if◌then◌else◌, inl, inr, leb, length, ℕ, ◌+◌, ◌<◌, ◌∷◌, ◌≡◌,
}
use jake_ai.Core.CircuitBreaker.{
  CircuitBreaker, closed, opened, half_open, is_available, record_success, record_failure,
}

-- A call of one of the three methods, with the reading of the clock.
pub data Event : Type 0 where
  availability success failure : ℕ → Event

unfoldable pub apply : Event → CircuitBreaker → CircuitBreaker
apply (availability now) b = (is_available now b).1
apply (success now) b = record_success now b
apply (failure now) b = record_failure now b

unfoldable pub apply_all : List Event → CircuitBreaker → CircuitBreaker
apply_all [] b = b
apply_all (e ∷ events) b = apply_all events (apply e b)

-- The failures in a row that a closed breaker has seen, and the successes in a row that a probing one
-- has seen, are fewer than the thresholds.
abbrev pub IsSound : CircuitBreaker → Type 0
IsSound b = elim b.state [
  | closed ↦ (b.failure_count < b.failure_threshold) × (b.success_count ≡ 0)
  | opened ↦ b.success_count ≡ 0
  | half_open ↦ b.success_count < b.half_open_success_threshold
]

abbrev pub SameLimits : CircuitBreaker → CircuitBreaker → Type 0
SameLimits b b' =
    (b'.failure_threshold ≡ b.failure_threshold)
    × (b'.half_open_success_threshold ≡ b.half_open_success_threshold)
    × (b'.recovery_timeout ≡ b.recovery_timeout)

apply-IsSound :
    (e : Event) (b : CircuitBreaker)
    → 0 < b.failure_threshold
    → 0 < b.half_open_success_threshold
    → IsSound b
    → IsSound (apply e b) × SameLimits b (apply e b)
unfolding apply is_available record_success record_failure
apply-IsSound (availability now) b f s h = ground arith
apply-IsSound (success now) b f s h = ground arith
apply-IsSound (failure now) b f s h = ground arith

-- Under positive thresholds every sequence of calls keeps a sound breaker sound.
apply_all-IsSound :
    (events : List Event) (b : CircuitBreaker)
    → 0 < b.failure_threshold
    → 0 < b.half_open_success_threshold
    → IsSound b
    → IsSound (apply_all events b) × SameLimits b (apply_all events b)
unfolding apply_all
apply_all-IsSound [] b f s h = ground arith
apply_all-IsSound (e ∷ events) b f s h =
    let (sound, same) = apply-IsSound e b f s h in
    let rest = apply_all-IsSound events (apply e b) (ground arith) (ground arith) sound in
    ground arith

abbrev pub failures : List ℕ → List Event
failures [] = []
failures (t ∷ ts) = failure t ∷ failures ts

failures-open :
    (times : List ℕ) (b : CircuitBreaker)
    → b.state ≡ opened
    → (apply_all (failures times) b).state ≡ opened
unfolding apply_all apply record_failure
failures-open [] b o = o
failures-open (t ∷ times) b o = failures-open times (record_failure t b) (ground arith)

-- A closed, sound breaker is open after a run of failures exactly when they, with those in a row
-- before, reach the threshold; before that it stays closed.
trips_at_threshold :
    (times : List ℕ) (b : CircuitBreaker)
    → b.state ≡ closed
    → b.failure_count < b.failure_threshold
    → (apply_all (failures times) b).state
      ≡ (if leb b.failure_threshold (b.failure_count + length times) then opened else closed)
unfolding apply_all apply record_failure
trips_at_threshold [] b c h = ground arith
trips_at_threshold (t ∷ times) b c h =
    elim (Bool-cases (leb b.failure_threshold (b.failure_count + 1))) [
      | inl trips ↦ ground (arith, failures-open times (record_failure t b))
      | inr stays ↦ ground (arith, trips_at_threshold times (record_failure t b))
    ]
