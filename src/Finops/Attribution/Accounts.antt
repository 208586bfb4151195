-- ===== src/Finops/Attribution/Accounts.antt =====
-- The savings that are attributed are those that there are.
use native.Mathlib.Nat.{add-mul, mul-add}
use jake_ai.Finops.Pricing.Catalog.{ModelPricing, get_model_pricing}
use jake_ai.Prelude.{
  Bool-cases, String, arith, false, inl, inr, ltb, lt→ltb, neg_part, pos, pos_part, subst, suc,
  true, zero, ℕ, ℤ, ◌*◌, ◌+◌, ◌-◌, ◌≡◌, ◌≤◌, ◌⊎◌,
}
use jake_ai.Finops.Pricing.{
  micros, micros_between, surcharge, baseline, billed, cache_gain, calculate_provider_cache_savings,
  calculate_baseline_cost, calculate_billed_cost,
}
use jake_ai.Finops.Attribution.{
  Usage, compute_savings_attribution, expected_total, hit_attribution, miss_attribution,
  validate_non_overlapping_sum, calculate_provider_cache_savings, get_model_pricing, physical_saved,
}

-- The total of an attribution is the sum of its parts, and not below zero; a cache hit has only the
-- saving of the hit, and any other request has none of it.
attribution_is_a_partition :
    (u : Usage)
    → ((compute_savings_attribution u).total_savings
        ≡ expected_total (compute_savings_attribution u))
      × ((u.is_cache_hit ≡ false)
          ⊎ ((compute_savings_attribution u).total_savings
              ≡ (compute_savings_attribution u).cache_hit))
      × ((u.is_cache_hit ≡ true) ⊎ ((compute_savings_attribution u).cache_hit ≡ 0))
unfolding compute_savings_attribution hit_attribution miss_attribution validate_non_overlapping_sum
    expected_total
attribution_is_a_partition u = ground arith

micros-near : (n : ℕ) → (2 * n ≤ 200000 * micros n + 100000) × (200000 * micros n ≤ 2 * n + 100000)
micros-near n = ground arith

-- How far a difference is from the rounded one.
micros_between-near :
    (gain loss : ℕ)
    → (2 * gain + 200000 * neg_part (micros_between gain loss)
        ≤ 2 * loss + 200000 * pos_part (micros_between gain loss) + 100000)
      × (2 * loss + 200000 * pos_part (micros_between gain loss)
          ≤ 2 * gain + 200000 * neg_part (micros_between gain loss) + 100000)
micros_between-near gain loss = ground (arith, micros-near (gain - loss), micros-near (loss - gain))

surcharge_lem :
    (p : ModelPricing) (written : ℕ)
    → p.input_per_million ≤ p.cache_write_per_million
    → written * p.cache_write_per_million ≡ written * p.input_per_million + surcharge p written
surcharge_lem p zero dearer = ground arith
surcharge_lem p (suc n) dearer =
    elim (Bool-cases (ltb p.input_per_million p.cache_write_per_million)) [
      | inl more ↦
          let split : suc n
                * (p.input_per_million + (p.cache_write_per_million - p.input_per_million))
              ≡ suc n * p.input_per_million
                + suc n * (p.cache_write_per_million - p.input_per_million) =
            mul-add (suc n) p.input_per_million (p.cache_write_per_million - p.input_per_million) in
          let whole : p.input_per_million + (p.cache_write_per_million - p.input_per_million)
              ≡ p.cache_write_per_million =
            omega (arith, dearer) in
          rw (lt→ltb 0 (suc n) (omega arith), more)
            (subst
              (λ r.
                suc n * r
                ≡ suc n * p.input_per_million
                  + suc n * (p.cache_write_per_million - p.input_per_million))
              whole split)
      | inr same ↦
          let equal : p.cache_write_per_million ≡ p.input_per_million = ground arith in
          rw (lt→ltb 0 (suc n) (omega arith), same) (rw equal (omega arith))
    ]

-- The books without rounding, where `d` tokens were pruned and the rest is split into tokens that were
-- not cached, read from the cache and written to it.
exact_books :
    (p : ModelPricing) (d uncached cached written output : ℕ)
    → p.input_per_million ≤ p.cache_write_per_million
    → baseline p (d + uncached + cached + written) output
        + (cached * p.cache_read_per_million + surcharge p written)
      ≡ billed p uncached cached written output + d * p.input_per_million + cache_gain p cached
exact_books p d uncached cached written output dearer =
    let s1 = add-mul (d + uncached + cached) written p.input_per_million in
    let s2 = add-mul (d + uncached) cached p.input_per_million in
    let s3 = add-mul d uncached p.input_per_million in
    let s4 : written * p.cache_write_per_million
        ≡ written * p.input_per_million + surcharge p written =
      surcharge_lem p written dearer in
    omega (arith, s1, s2, s3, s4)

nothing_cached :
    (p : ModelPricing)
    → pos 0 ≡ micros_between (cache_gain p 0) (0 * p.cache_read_per_million + surcharge p 0)
nothing_cached p = ground arith

cache_savings-near :
    (model : String) (cached written : ℕ)
    → calculate_provider_cache_savings model cached written
      ≡ micros_between (cache_gain (get_model_pricing model) cached) (
          cached * (get_model_pricing model).cache_read_per_million
          + surcharge (get_model_pricing model) written)
unfolding calculate_provider_cache_savings
cache_savings-near model zero zero = nothing_cached (get_model_pricing model)
cache_savings-near model zero (suc n) = ground arith
cache_savings-near model (suc n) written = ground arith

-- What misses the cache has what pruning saves and what the provider's cache saves.
miss_parts :
    (u : Usage)
    → u.is_cache_hit ≡ false
    → ((compute_savings_attribution u).physical_reduction
        ≡ micros
            ((u.raw_tokens - u.optimized_tokens) * (get_model_pricing u.model).input_per_million))
      × ((compute_savings_attribution u).provider_cache
          ≡ calculate_provider_cache_savings u.model u.provider_cached_tokens
              u.provider_cache_write_tokens)
unfolding compute_savings_attribution miss_attribution validate_non_overlapping_sum physical_saved
miss_parts u miss = ground arith

-- The two sides of the books agree to within two micro-dollars.
abbrev pub Balanced : ℕ → ℕ → ℕ → ℤ → Type 0
Balanced base bill physical cached =
    (base + neg_part cached ≤ bill + physical + pos_part cached + 2)
    × (bill + physical + pos_part cached ≤ base + neg_part cached + 2)

books-near :
    (p : ModelPricing) (d uncached cached written output : ℕ)
    → p.input_per_million ≤ p.cache_write_per_million
    → Balanced
        (micros (baseline p (d + uncached + cached + written) output))
        (micros (billed p uncached cached written output))
        (micros (d * p.input_per_million))
        (micros_between
          (cache_gain p cached)
          (cached * p.cache_read_per_million + surcharge p written))
books-near p d uncached cached written output dearer =
    let books = exact_books p d uncached cached written output dearer in
    let (b1, b2) = micros-near (baseline p (d + uncached + cached + written) output) in
    let (a1, a2) = micros-near (billed p uncached cached written output) in
    let (d1, d2) = micros-near (d * p.input_per_million) in
    let (c1, c2) =
      micros_between-near (cache_gain p cached)
        (cached * p.cache_read_per_million + surcharge p written) in
    (
      omega (arith, books, b1, b2, a1, a2, d1, d2, c1, c2),
      omega (arith, books, b1, b2, a1, a2, d1, d2, c1, c2),
    )

-- A request that misses the cache and went to the model that was asked for, whose input was split into
-- pruned tokens and tokens that were not cached, read from the cache and written to it: what pruning and
-- the provider's cache are said to save is what the baseline costs more than the bill, to within two
-- micro-dollars of rounding.
pub savings_are_accounted :
    (u : Usage) (uncached : ℕ)
    → u.is_cache_hit ≡ false
    → u.optimized_tokens ≡ uncached + u.provider_cached_tokens + u.provider_cache_write_tokens
    → u.optimized_tokens ≤ u.raw_tokens
    → (get_model_pricing u.model).input_per_million
      ≤ (get_model_pricing u.model).cache_write_per_million
    → Balanced
        (calculate_baseline_cost u.model u.raw_tokens u.output_tokens)
        (calculate_billed_cost u.model uncached u.provider_cached_tokens
          u.provider_cache_write_tokens u.output_tokens)
        (compute_savings_attribution u).physical_reduction
        (compute_savings_attribution u).provider_cache
unfolding calculate_baseline_cost calculate_billed_cost
savings_are_accounted u uncached miss split pruned dearer =
    let p = get_model_pricing u.model in
    let d = u.raw_tokens - u.optimized_tokens in
    let cached = u.provider_cached_tokens in
    let written = u.provider_cache_write_tokens in
    let raw : d + uncached + cached + written ≡ u.raw_tokens = omega (arith, split, pruned) in
    let (physical, cache) = miss_parts u miss in
    rw (physical, cache, cache_savings-near u.model cached written)
      (subst
        (λ r.
          Balanced (micros (baseline p r u.output_tokens))
            (micros (billed p uncached cached written u.output_tokens))
            (micros (d * p.input_per_million))
            (micros_between (cache_gain p cached)
              (cached * p.cache_read_per_million + surcharge p written)))
        raw (books-near p d uncached cached written u.output_tokens dearer))
