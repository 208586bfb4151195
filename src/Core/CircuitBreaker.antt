-- ===== src/Core/CircuitBreaker.antt =====
-- core/circuit_breaker.py. Times are ticks of the monotonic clock. A method that reads the clock takes
-- the reading, and the upstream functions of `call_with_fallback` are given by what they return or
-- raise. Calls do not overlap.
pub mod Trips
pub mod Chain
mod Tests
use jake_ai.Prelude.{
  Bool, Exc, Option, Result, err, false, if◌then◌else◌, leb, none, ok, some, true, ℕ, ◌+◌, ◌||◌,
}

pub data CircuitState : Type 0 where
  closed opened half_open : CircuitState

pub record CircuitBreaker : Type 0 where
  pub failure_threshold : ℕ
  pub recovery_timeout : ℕ
  pub half_open_success_threshold : ℕ
  pub state : CircuitState
  pub failure_count : ℕ
  pub success_count : ℕ
  pub last_state_change : ℕ
  pub total_fallback_calls : ℕ

-- `__init__`
unfoldable pub new_breaker : ℕ → ℕ → ℕ → ℕ → CircuitBreaker
new_breaker failure_threshold recovery_timeout half_open_success_threshold now = record {
  failure_threshold = failure_threshold;
  recovery_timeout = recovery_timeout;
  half_open_success_threshold = half_open_success_threshold;
  state = closed;
  failure_count = 0;
  success_count = 0;
  last_state_change = now;
  total_fallback_calls = 0;
}

unfoldable pub is_available : ℕ → CircuitBreaker → Bool × CircuitBreaker
is_available now b = elim b.state [
  | opened ↦
      if leb (b.last_state_change + b.recovery_timeout) now
      then (true, record b { state = half_open; success_count = 0; last_state_change = now })
      else (false, b)
  | _ ↦ (true, b)
]

unfoldable pub record_success : ℕ → CircuitBreaker → CircuitBreaker
record_success now b = elim b.state [
  | half_open ↦
      if leb b.half_open_success_threshold (b.success_count + 1)
      then record b {
        state = closed;
        failure_count = 0;
        success_count = 0;
        last_state_change = now;
      }
      else record b { success_count = b.success_count + 1 }
  | closed ↦ record b { failure_count = 0 }
  | opened ↦ b
]

abbrev pub is_half_open : CircuitState → Bool
is_half_open half_open = true
is_half_open _ = false

unfoldable pub record_failure : ℕ → CircuitBreaker → CircuitBreaker
record_failure now b =
    if is_half_open b.state || leb b.failure_threshold (b.failure_count + 1)
    then record b {
      failure_count = b.failure_count + 1;
      last_state_change = now;
      state = opened;
      success_count = 0;
    }
    else record b { failure_count = b.failure_count + 1; last_state_change = now }

-- what is raised: an exception of an upstream function, or the breaker's own
pub data Failure : Type 0 where
  upstream : Exc → Failure
  circuit_open : Failure

pub data Outcome {ℓ} (A : Type ℓ) : Type ℓ where
  returned : A → Outcome A
  raised : Failure → Outcome A

-- An upstream function's outcome.
abbrev pub outcome {ℓ} : {A : Type ℓ} → Result A → Outcome A
outcome (ok a) = returned a
outcome (err e) = raised (upstream e)

-- the secondary provider and the deterministic fallback, each where there is one
unfoldable pub fall_back {ℓ} :
    {A : Type ℓ} → Failure → Option (Result A) → Option (Result A) → Outcome A
fall_back last_error (some (ok a)) deterministic = returned a
fall_back last_error (some (err e)) (some r) = outcome r
fall_back last_error (some (err e)) none = raised (upstream e)
fall_back last_error none (some r) = outcome r
fall_back last_error none none = raised last_error

abbrev pub count_fallback : CircuitBreaker → CircuitBreaker
count_fallback b = record b { total_fallback_calls = b.total_fallback_calls + 1 }

-- `now` is the time of the call and `done` that of the primary's return.
unfoldable pub call_with_fallback {ℓ} :
    {A : Type ℓ}
    → ℕ
    → ℕ
    → Result A
    → Option (Result A)
    → Option (Result A)
    → CircuitBreaker
    → Outcome A × CircuitBreaker
call_with_fallback now done primary secondary deterministic b =
    let (available, probed) = is_available now b in
    if available
    then elim primary [
      | ok a ↦ (returned a, record_success done probed)
      | err e ↦ (
        fall_back (upstream e) secondary deterministic,
        count_fallback (record_failure done probed),
      )
    ]
    else (fall_back circuit_open secondary deterministic, count_fallback probed)
