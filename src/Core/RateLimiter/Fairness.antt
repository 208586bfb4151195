-- ===== src/Core/RateLimiter/Fairness.antt =====
-- How many requests of a client pass in a stretch of time.
use native.Mathlib.Nat.{add-mul, mul-le-mul_right}
use jake_ai.Prelude.{
  Bool, Bool-cases, List, Option, String, [], arith, eq_iff, false, inl, inr, leb, lookup,
  lookup-insert, none, some, str_eq, subst, true, ℕ, ◌&&◌, ◌*◌, ◌+◌, ◌-◌, ◌∷◌, ◌≡◌, ◌≤◌,
}
use jake_ai.Core.RateLimiter.{
  Limiter, Verdict, token, level, check_in_memory, Bucket, take_token, refilled, prune_memory_store,
}
use jake_ai.Core.RateLimiter.Pruning.{
  IsDict, IsDict-insert, IsDict-prune_memory_store, level-prune_memory_store,
}

-- Each call is no earlier than the one before.
abbrev pub InOrder : ℕ → List (ℕ × String) → Type 0
InOrder start [] = Unit
InOrder start ((now, key) ∷ calls) = (start ≤ now) × InOrder now calls

-- the time of the last call
abbrev pub last_time : ℕ → List (ℕ × String) → ℕ
last_time start [] = start
last_time start ((now, key) ∷ calls) = last_time now calls

abbrev pub counts : Bool → ℕ
counts true = 1
counts false = 0

-- how many calls for a key are allowed
unfoldable pub passes : String → List (ℕ × String) → Limiter → ℕ
passes key [] l = 0
passes key ((now, k) ∷ calls) l =
    let (verdict, l') = check_in_memory now k l in
    counts (str_eq k key && verdict.is_allowed) + passes key calls l'

refilled-later :
    (rate capacity start now : ℕ) (b : Option Bucket)
    → start ≤ now
    → refilled rate capacity now b ≤ refilled rate capacity start b + (now - start) * rate
refilled-later rate capacity start now none h = omega arith
refilled-later rate capacity start now (some (units, last)) h =
    let grown : (now - last) * rate ≤ ((start - last) + (now - start)) * rate =
      mul-le-mul_right rate (omega arith) in
    let split = add-mul (start - last) (now - start) rate in omega arith

pub level-later :
    (start now : ℕ) (key : String) (l : Limiter)
    → start ≤ now
    → level now key l ≤ level start key l + (now - start) * l.rate_per_minute
unfolding level
level-later start now key l h =
    refilled-later l.rate_per_minute l.capacity start now (lookup key l.store) h

-- What a check does to the level of a key at its time, to the limits and to the store.
abbrev pub Charged : ℕ → String → String → Limiter → Verdict × Limiter → Type 0
Charged now k key l (verdict, l') =
    (level now key l' + counts (str_eq k key && verdict.is_allowed) * token ≤ level now key l)
    × (l'.rate_per_minute ≡ l.rate_per_minute)
    × (l'.capacity ≡ l.capacity)
    × IsDict l'.store

take_token-Charged :
    (now : ℕ) (k key : String) (l : Limiter)
    → IsDict l.store
    → Charged now k key l (take_token now k l)
unfolding take_token level
take_token-Charged now k key l h = elim (Bool-cases (leb token (level now k l))) [
  | inl full ↦ ground (
    arith,
    lookup-insert k key (level now k l - token, now) l.store,
    IsDict-insert k (level now k l - token, now) l.store h,
    eq_iff k key,
  )
  | inr low ↦ ground arith
]

limits-prune_memory_store :
    (now : ℕ) (l : Limiter)
    → ((prune_memory_store now l).rate_per_minute ≡ l.rate_per_minute)
      × ((prune_memory_store now l).capacity ≡ l.capacity)
unfolding prune_memory_store
limits-prune_memory_store now l = ground arith

check_in_memory-Charged :
    (now : ℕ) (k key : String) (l : Limiter)
    → IsDict l.store
    → l.capacity ≤ 2 * l.rate_per_minute
    → Charged now k key l (check_in_memory now k l)
unfolding check_in_memory
check_in_memory-Charged now k key l h enough = ground (
  arith,
  take_token-Charged now k key (prune_memory_store now l) (IsDict-prune_memory_store now l h),
  level-prune_memory_store now l key h enough,
  limits-prune_memory_store now l,
)

last_time-ge :
    (start : ℕ) (calls : List (ℕ × String)) → InOrder start calls → start ≤ last_time start calls
last_time-ge start [] h = omega arith
last_time-ge start ((now, key) ∷ calls) (first, order) = omega (arith, last_time-ge now calls order)

-- Where two minutes refill a whole burst and the store has one entry a key: over calls in the order of
-- time, those of other clients among them, a client passes at most as often as the level of its bucket
-- at the start and the refill of the elapsed time pay for.
pub passes_bounded :
    (key : String) (calls : List (ℕ × String)) (start : ℕ) (l : Limiter)
    → IsDict l.store
    → l.capacity ≤ 2 * l.rate_per_minute
    → InOrder start calls
    → passes key calls l * token
      ≤ level start key l + (last_time start calls - start) * l.rate_per_minute
unfolding passes
passes_bounded key [] start l h enough order = omega arith
passes_bounded key ((now, k) ∷ calls) start l h enough (first, order) =
    let (charge, rate, capacity, store) = check_in_memory-Charged now k key l h enough in
    let l' = (check_in_memory now k l).1 in
    let rest = passes_bounded key calls now l' store (rw (rate, capacity) enough) order in
    let rest' : passes key calls l' * token
        ≤ level now key l' + (last_time now calls - now) * l.rate_per_minute =
      subst (λ r. passes key calls l' * token ≤ level now key l' + (last_time now calls - now) * r)
        rate rest in
    let later = level-later start now key l first in
    let time : last_time now calls - start ≡ (now - start) + (last_time now calls - now) =
      omega (arith, last_time-ge now calls order) in
    let split = add-mul (now - start) (last_time now calls - now) l.rate_per_minute in
    rw time (omega (arith, charge, rest', later, split))
