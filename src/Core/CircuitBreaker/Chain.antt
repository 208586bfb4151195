-- ===== src/Core/CircuitBreaker/Chain.antt =====
-- What a call through the fallback chain gives.
use jake_ai.Prelude.{
  Bool, List, Option, Result, [], arith, err, false, length, ltb, none, not, ok, refl, some, true,
  ℕ, ◌+◌, ◌<◌, ◌∷◌, ◌≡◌, ◌≤◌,
}
use jake_ai.Core.CircuitBreaker.{
  CircuitBreaker, Outcome, returned, raised, upstream, circuit_open, Failure, outcome, fall_back,
  closed, opened, half_open, is_available, record_success, call_with_fallback,
}

-- the last resort's outcome, when the primary and the secondary give nothing
abbrev pub last_resort {ℓ} : {A : Type ℓ} → Failure → Option (Result A) → Outcome A
last_resort f none = raised f
last_resort f (some r) = outcome r

-- the outcome of the secondary or, failing that, of the last resort
abbrev pub after_primary {ℓ} :
    {A : Type ℓ} → Failure → Option (Result A) → Option (Result A) → Outcome A
after_primary f none deterministic = last_resort f deterministic
after_primary f (some (ok a)) deterministic = returned a
after_primary f (some (err e)) deterministic = last_resort (upstream e) deterministic

-- the first success of the chain, the primary being left out while the circuit is open and the
-- cooldown lasts
abbrev pub first_success {ℓ} :
    {A : Type ℓ} → Bool → Result A → Option (Result A) → Option (Result A) → Outcome A
first_success true (ok a) secondary deterministic = returned a
first_success true (err e) secondary deterministic =
    after_primary (upstream e) secondary deterministic
first_success false primary secondary deterministic =
    after_primary circuit_open secondary deterministic

-- the circuit is open and its cooldown is not over
abbrev pub is_cooling : ℕ → CircuitBreaker → Bool
is_cooling now b = elim b.state [
  | opened ↦ ltb now (b.last_state_change + b.recovery_timeout)
  | _ ↦ false
]

fall_back-after_primary {ℓ} :
    {A : Type ℓ} (f : Failure) (secondary deterministic : Option (Result A))
    → fall_back f secondary deterministic ≡ after_primary f secondary deterministic
unfolding fall_back
fall_back-after_primary f none none = refl
fall_back-after_primary f none (some r) = refl
fall_back-after_primary f (some (ok a)) d = refl
fall_back-after_primary f (some (err e)) none = refl
fall_back-after_primary f (some (err e)) (some r) = refl

-- A call gives the first success of primary, secondary and deterministic fallback, in that order, and
-- the last failure when there is none; the primary has no say while the circuit cools down.
pub call_with_fallback_lem {ℓ} :
    {A : Type ℓ} (now done : ℕ) (primary : Result A) (secondary deterministic : Option (Result A))
    (b : CircuitBreaker)
    → (call_with_fallback now done primary secondary deterministic b).0
      ≡ first_success (not (is_cooling now b)) primary secondary deterministic
unfolding call_with_fallback is_available
call_with_fallback_lem now done (ok a) secondary deterministic b =
    ground (arith, fall_back-after_primary circuit_open secondary deterministic)
call_with_fallback_lem now done (err e) secondary deterministic b = ground (
  arith,
  fall_back-after_primary (upstream e) secondary deterministic,
  fall_back-after_primary circuit_open secondary deterministic,
)

after_primary-returns {ℓ} :
    {A : Type ℓ} (f : Failure) (secondary : Option (Result A)) (d : A)
    → (a : A) × (after_primary f secondary (some (ok d)) ≡ returned a)
after_primary-returns f none d = (d, refl)
after_primary-returns f (some (ok a)) d = (a, refl)
after_primary-returns f (some (err e)) d = (d, refl)

-- With a deterministic fallback that returns, a call never raises, whatever the state of the circuit
-- and whatever the providers do.
pub deterministic_fallback_guarantees {ℓ} :
    {A : Type ℓ} (now done : ℕ) (primary : Result A) (secondary : Option (Result A)) (d : A)
    (b : CircuitBreaker)
    → (a : A) × ((call_with_fallback now done primary secondary (some (ok d)) b).0 ≡ returned a)
deterministic_fallback_guarantees {A = A} now done primary secondary d b =
    rw (call_with_fallback_lem now done primary secondary (some (ok d)) b)
      (by_primary (not (is_cooling now b)) primary)
  where
    by_primary :
        (available : Bool) (primary : Result A)
        → (a : A) × (first_success available primary secondary (some (ok d)) ≡ returned a)
    by_primary true (ok a) = (a, refl)
    by_primary true (err e) = after_primary-returns (upstream e) secondary d
    by_primary false primary = after_primary-returns circuit_open secondary d

-- primaries that succeed, each at a time
abbrev pub probes {ℓ} : {A : Type ℓ} → List (ℕ × ℕ × A) → CircuitBreaker → CircuitBreaker
probes [] b = b
probes ((now, done, a) ∷ calls) b = probes calls (call_with_fallback now done (ok a) none none b).1

probing_closes {ℓ} :
    {A : Type ℓ} (calls : List (ℕ × ℕ × A)) (b : CircuitBreaker)
    → b.state ≡ half_open
    → b.success_count < b.half_open_success_threshold
    → b.success_count + length calls ≡ b.half_open_success_threshold
    → ((probes calls b).state ≡ closed) × ((probes calls b).failure_count ≡ 0)
unfolding call_with_fallback is_available record_success
probing_closes [] b s lt e = ground arith
probing_closes ((now, done, a) ∷ []) b s lt e = ground arith
probing_closes ((now, done, a) ∷ call ∷ calls) b s lt e =
    ground (arith, probing_closes (call ∷ calls) (call_with_fallback now done (ok a) none none b).1)

-- A circuit that is open and has cooled down closes, its failures forgotten, by as many successful
-- calls as the half-open threshold asks, the first of them the probe.
pub recovery_closes {ℓ} :
    {A : Type ℓ} (now done : ℕ) (a : A) (calls : List (ℕ × ℕ × A)) (b : CircuitBreaker)
    → b.state ≡ opened
    → b.last_state_change + b.recovery_timeout ≤ now
    → 1 + length calls ≡ b.half_open_success_threshold
    → ((probes ((now, done, a) ∷ calls) b).state ≡ closed)
      × ((probes ((now, done, a) ∷ calls) b).failure_count ≡ 0)
unfolding call_with_fallback is_available record_success
recovery_closes now done a [] b s t e = ground arith
recovery_closes now done a (call ∷ calls) b s t e =
    ground (arith, probing_closes (call ∷ calls) (call_with_fallback now done (ok a) none none b).1)
