-- ===== src/Finops/Attribution.antt =====
-- finops/attribution.py: where the savings of a request come from (`SavingsAttribution` of
-- finops/models.py), in micro-dollars.
mod Tests
pub mod Accounts
use jake_ai.Prelude.{
  Bool, Option, String, add_floor, if◌then◌else◌, ltb, none, pos, some, str_eq, ℕ, ℤ, ◌&&◌, ◌*◌,
  ◌+◌, ◌-◌, ◌==◌,
}
use jake_ai.Finops.Pricing.{
  baseline, micros, same_model, calculate_model_routing_savings, calculate_provider_cache_savings,
}
use jake_ai.Finops.Pricing.Catalog.{get_model_pricing}

pub record SavingsAttribution : Type 0 where
  pub cache_hit : ℕ
  pub physical_reduction : ℕ
  pub provider_cache : ℤ
  pub model_routing : ℕ
  pub avoided_retries : ℕ
  pub total_savings : ℕ

-- `max(0.0, round(sum, 6))`
unfoldable pub expected_total : SavingsAttribution → ℕ
expected_total s =
    add_floor (s.cache_hit + s.physical_reduction + s.model_routing + s.avoided_retries)
      s.provider_cache

-- a total of zero is replaced by the sum
unfoldable pub validate_non_overlapping_sum : SavingsAttribution → SavingsAttribution
validate_non_overlapping_sum s =
    if s.total_savings == 0 && ltb 0 (expected_total s)
    then record s { total_savings = expected_total s }
    else s

-- what the caller of `compute_savings_attribution` gives
pub record Usage : Type 0 where
  pub model : String
  pub raw_tokens : ℕ
  pub optimized_tokens : ℕ
  pub output_tokens : ℕ
  pub is_cache_hit : Bool
  pub provider_cached_tokens : ℕ
  pub provider_cache_write_tokens : ℕ
  pub requested_model : Option String
  pub avoided_retries_cost : ℕ

-- the whole inference is avoided
unfoldable pub hit_attribution : Usage → SavingsAttribution
hit_attribution u =
    let saved = micros (baseline (get_model_pricing u.model) u.raw_tokens u.output_tokens) in
    validate_non_overlapping_sum (record {
      cache_hit = saved;
      physical_reduction = 0;
      provider_cache = pos 0;
      model_routing = 0;
      avoided_retries = 0;
      total_savings = saved;
    })

-- `requested_model or model`
unfoldable pub effective_model : Option String → String → String
effective_model none model = model
effective_model (some requested) model = if str_eq requested "" then model else requested

unfoldable pub routing_saved : Usage → ℕ
routing_saved u =
    let requested = effective_model u.requested_model u.model in
    if same_model requested u.model
    then 0
    else calculate_model_routing_savings requested u.model u.raw_tokens u.output_tokens

unfoldable pub physical_saved : Usage → ℕ
physical_saved u =
    micros ((u.raw_tokens - u.optimized_tokens) * (get_model_pricing u.model).input_per_million)

unfoldable pub miss_attribution : Usage → SavingsAttribution
miss_attribution u =
    let routing = routing_saved u in
    let physical = physical_saved u in
    let cached =
      calculate_provider_cache_savings u.model u.provider_cached_tokens
        u.provider_cache_write_tokens in
    validate_non_overlapping_sum (record {
      cache_hit = 0;
      physical_reduction = physical;
      provider_cache = cached;
      model_routing = routing;
      avoided_retries = u.avoided_retries_cost;
      total_savings = add_floor (routing + physical + u.avoided_retries_cost) cached;
    })

unfoldable pub compute_savings_attribution : Usage → SavingsAttribution
compute_savings_attribution u = if u.is_cache_hit then hit_attribution u else miss_attribution u
