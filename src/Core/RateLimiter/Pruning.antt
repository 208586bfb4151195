-- ===== src/Core/RateLimiter/Pruning.antt =====
-- Dropping stale buckets from the store does not show.
use native.Mathlib.Nat.{mul-le-mul_right}
use jake_ai.Prelude.{
  Bool-cases, Dict, String, [], arith, eq_iff, inl, inr, insert, length, lookup, lookup-insert, ltb,
  ltb→lt, none, refl, some, true, ℕ, ◌*◌, ◌+◌, ◌-◌, ◌<◌, ◌∷◌, ◌≡◌, ◌≤◌, ◌⊎◌,
}
use jake_ai.Core.RateLimiter.{
  Bucket, token, is_stale, drop_stale, Limiter, prune_memory_store, level, refilled,
}

-- Every key has one entry.
abbrev pub IsDict : Dict Bucket → Type 0
IsDict [] = Unit
IsDict ((k, b) ∷ d) = (lookup k d ≡ none) × IsDict d

-- a stale bucket is full again
stale_full :
    (rate capacity now units last : ℕ)
    → capacity ≤ 2 * rate
    → last + 120000 < now
    → capacity * token ≤ units + (now - last) * rate
stale_full rate capacity now units last h stale =
    let two_minutes : 120000 * rate ≤ (now - last) * rate = mul-le-mul_right rate (omega arith) in
    omega arith

missing-drop_stale :
    (now : ℕ) (key : String) (d : Dict Bucket)
    → lookup key d ≡ none
    → lookup key (drop_stale now d) ≡ none
unfolding lookup drop_stale
missing-drop_stale now key [] h = h
missing-drop_stale now key ((k, b) ∷ d) h = ground (arith, missing-drop_stale now key d)

lookup-drop_stale :
    (now : ℕ) (key : String) (d : Dict Bucket)
    → IsDict d
    → (lookup key (drop_stale now d) ≡ lookup key d)
      ⊎ ((b : Bucket) × (lookup key d ≡ some b)
          × (is_stale now b ≡ true)
          × (lookup key (drop_stale now d) ≡ none))
unfolding lookup drop_stale
lookup-drop_stale now key [] h = inl refl
lookup-drop_stale now key ((k, b) ∷ d) (new, h) = elim (Bool-cases (is_stale now b)) [
  | inl old ↦
      rw old (
        ground (arith, lookup-drop_stale now key d h, missing-drop_stale now k d new, eq_iff k key))
  | inr fresh ↦ rw fresh (ground (arith, lookup-drop_stale now key d h))
]

pub IsDict-drop_stale : (now : ℕ) (d : Dict Bucket) → IsDict d → IsDict (drop_stale now d)
unfolding drop_stale
IsDict-drop_stale now [] h = h
IsDict-drop_stale now ((k, b) ∷ d) (new, h) =
    ground (arith, missing-drop_stale now k d new, IsDict-drop_stale now d h)

pub IsDict-insert :
    (key : String) (b : Bucket) (d : Dict Bucket) → IsDict d → IsDict (insert key b d)
unfolding insert lookup
IsDict-insert key b [] h = ground arith
IsDict-insert key b ((k, b') ∷ d) (new, h) =
    ground (arith, IsDict-insert key b d h, lookup-insert key k b d, eq_iff k key, eq_iff key k)

refilled-drop_stale :
    (rate capacity now : ℕ) (key : String) (d : Dict Bucket)
    → IsDict d
    → capacity ≤ 2 * rate
    → refilled rate capacity now (lookup key (drop_stale now d))
      ≡ refilled rate capacity now (lookup key d)
refilled-drop_stale rate capacity now key d h enough = elim (lookup-drop_stale now key d h) [
  | inl same ↦ rw same refl
  | inr ((units, last), found, old, gone) ↦
      rw (found, gone)
        (omega
          (arith, stale_full rate capacity now units last enough (ltb→lt (last + 120000) now old)))
]

module _ (now : ℕ) (l : Limiter) where
  pub IsDict-prune_memory_store : IsDict l.store → IsDict (prune_memory_store now l).store
  unfolding prune_memory_store
  IsDict-prune_memory_store h = ground (arith, IsDict-drop_stale now l.store h)

  -- Pruning the store changes no bucket's level at that time, where two minutes refill a whole burst.
  pub level-prune_memory_store :
      (key : String)
      → IsDict l.store
      → l.capacity ≤ 2 * l.rate_per_minute
      → level now key (prune_memory_store now l) ≡ level now key l
  unfolding prune_memory_store level
  level-prune_memory_store key h enough = elim (Bool-cases (ltb 1000 (length l.store))) [
    | inl long ↦
        rw (long, prune_memory_store)
          (refilled-drop_stale l.rate_per_minute l.capacity now key l.store h enough)
    | inr short ↦ rw (short, prune_memory_store) refl
  ]
