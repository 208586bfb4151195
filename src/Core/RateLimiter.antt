-- ===== src/Core/RateLimiter.antt =====
-- core/rate_limiter.py, the in-memory mode of `TokenBucketRateLimiter` (no Redis client) itself.
-- Times are milliseconds. A bucket counts in units of which a token has 60000,
-- so that a millisecond refills `rate_per_minute` units exactly. The wait that is reported is in
-- hundredths of a second, to which the source rounds it. The rate is positive: a denial divides by it.
pub mod Fairness
pub mod Pruning
mod Tests
use jake_ai.Prelude.{
  Bool, Dict, Option, String, [], false, if◌then◌else◌, insert, leb, length, lookup, ltb, min, none,
  round_ratio, some, true, ℕ, ◌*◌, ◌+◌, ◌-◌, ◌/◌, ◌∷◌,
}

abbrev pub token : ℕ
token = 60000

-- a bucket: its units and the time of its last refill
abbrev pub Bucket : Type 0
Bucket = ℕ × ℕ

pub record Limiter : Type 0 where
  pub rate_per_minute : ℕ
  -- `burst`
  pub capacity : ℕ
  -- `_memory_store`
  pub store : Dict Bucket

-- `last_refill < now - 120.0`
abbrev pub is_stale : ℕ → Bucket → Bool
is_stale now (units, last) = ltb (last + 120000) now

unfoldable pub drop_stale : ℕ → Dict Bucket → Dict Bucket
drop_stale now [] = []
drop_stale now ((k, b) ∷ store) =
    let rest = drop_stale now store in if is_stale now b then rest else (k, b) ∷ rest

unfoldable pub prune_memory_store : ℕ → Limiter → Limiter
prune_memory_store now l =
    if ltb 1000 (length l.store) then record l { store = drop_stale now l.store } else l

-- the units of a key's bucket now; a key that is not stored has a full bucket
abbrev pub refilled : ℕ → ℕ → ℕ → Option Bucket → ℕ
refilled rate capacity now none = capacity * token
refilled rate capacity now (some (units, last)) =
    min (capacity * token) (units + (now - last) * rate)

unfoldable pub level : ℕ → String → Limiter → ℕ
level now key l = refilled l.rate_per_minute l.capacity now (lookup key l.store)

pub record Verdict : Type 0 where
  pub is_allowed : Bool
  pub remaining : ℕ
  pub retry_after : ℕ

-- `_check_in_memory` once the store is pruned
unfoldable pub take_token : ℕ → String → Limiter → Verdict × Limiter
take_token now key l =
    let units = level now key l in
    if leb token units
    then (
      record { is_allowed = true; remaining = (units - token) / token; retry_after = 0 },
      record l { store = insert key (units - token, now) l.store },
    )
    else (
      record {
        is_allowed = false;
        remaining = units / token;
        retry_after = round_ratio (token - units) (10 * l.rate_per_minute);
      },
      l,
    )

unfoldable pub check_in_memory : ℕ → String → Limiter → Verdict × Limiter
check_in_memory now key l = take_token now key (prune_memory_store now l)
