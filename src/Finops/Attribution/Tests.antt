-- ===== src/Finops/Attribution/Tests.antt =====
-- A request of which 2000 tokens were pruned, 4000 read from the cache and 1000 written to it.
use jake_ai.Prelude.{arith, false, lower, none, refl, same_codes, strip, ◌≡◌, ◌≤◌}
use jake_ai.Finops.Pricing.{calculate_baseline_cost, calculate_billed_cost}
use jake_ai.Finops.Pricing.Catalog.{get_model_pricing, claude_3_5_sonnet, exact}
use jake_ai.Finops.Attribution.{Usage, compute_savings_attribution}
use jake_ai.Finops.Attribution.Accounts.{Balanced, savings_are_accounted}

abbrev usage : Usage
usage = record {
  model = "claude-3-5-sonnet";
  raw_tokens = 10000;
  optimized_tokens = 8000;
  output_tokens = 500;
  is_cache_hit = false;
  provider_cached_tokens = 4000;
  provider_cache_write_tokens = 1000;
  requested_model = none;
  avoided_retries_cost = 0;
}

rates_found : get_model_pricing "claude-3-5-sonnet" ≡ claude_3_5_sonnet
unfolding get_model_pricing exact same_codes strip lower
rates_found = refl

dearer :
    (get_model_pricing "claude-3-5-sonnet").input_per_million
    ≤ (get_model_pricing "claude-3-5-sonnet").cache_write_per_million
dearer = rw rates_found (omega arith)

savings_are_accounted_example :
    Balanced
      (calculate_baseline_cost "claude-3-5-sonnet" 10000 500)
      (calculate_billed_cost "claude-3-5-sonnet" 3000 4000 1000 500)
      (compute_savings_attribution usage).physical_reduction
      (compute_savings_attribution usage).provider_cache
savings_are_accounted_example = savings_are_accounted usage 3000 refl refl (omega arith) dearer
