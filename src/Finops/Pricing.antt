-- ===== src/Finops/Pricing.antt =====
-- optimizer/provider_pricing.py and finops/pricing.py: the rates of the models and the costs and
-- savings in them. A rate is in hundred-thousandths of a dollar per million tokens, so that a token
-- costs a rate in hundred-thousandths of a micro-dollar; a cost or saving is in micro-dollars, the sixth
-- decimal to which the source rounds it. Binary rounding of the floats in between is left out.
pub mod Catalog
use jake_ai.Prelude.{
  Bool, String, codes, if◌then◌else◌, leb, lower, ltb, pos, round_ratio, same_codes, strip, sub_ℕ,
  ℕ, ℤ, ◌&&◌, ◌*◌, ◌+◌, ◌-◌, ◌==◌,
}
use jake_ai.Finops.Pricing.Catalog.{ModelPricing, get_model_pricing}

-- the hundred-thousandths of a micro-dollar, to `round(cost, 6)`
abbrev pub micros : ℕ → ℕ
micros n = round_ratio n 100000

-- the same of a difference that may be negative
abbrev pub micros_between : ℕ → ℕ → ℤ
micros_between gain loss =
    if leb loss gain then pos (micros (gain - loss)) else sub_ℕ 0 (micros (loss - gain))

abbrev pub baseline : ModelPricing → ℕ → ℕ → ℕ
baseline p raw_input_tokens output_tokens =
    raw_input_tokens * p.input_per_million + output_tokens * p.output_per_million

unfoldable pub calculate_baseline_cost : String → ℕ → ℕ → ℕ
calculate_baseline_cost model raw_input_tokens output_tokens =
    micros (baseline (get_model_pricing model) raw_input_tokens output_tokens)

abbrev pub billed : ModelPricing → ℕ → ℕ → ℕ → ℕ → ℕ
billed p uncached_input_tokens cached_input_tokens cache_write_tokens output_tokens =
    uncached_input_tokens * p.input_per_million
    + cached_input_tokens * p.cache_read_per_million
    + cache_write_tokens * p.cache_write_per_million
    + output_tokens * p.output_per_million

unfoldable pub calculate_billed_cost : String → ℕ → ℕ → ℕ → ℕ → ℕ
calculate_billed_cost model uncached_input_tokens cached_input_tokens cache_write_tokens
      output_tokens =
    micros (
      billed (get_model_pricing model) uncached_input_tokens cached_input_tokens cache_write_tokens
        output_tokens)

-- what reading from the cache spares, and what writing to it adds
abbrev pub cache_gain : ModelPricing → ℕ → ℕ
cache_gain p cached_input_tokens = cached_input_tokens * p.input_per_million

abbrev pub surcharge : ModelPricing → ℕ → ℕ
surcharge p cache_write_tokens =
    if ltb 0 cache_write_tokens && ltb p.input_per_million p.cache_write_per_million
    then cache_write_tokens * (p.cache_write_per_million - p.input_per_million)
    else 0

unfoldable pub calculate_provider_cache_savings : String → ℕ → ℕ → ℤ
calculate_provider_cache_savings model cached_input_tokens cache_write_tokens =
    let p = get_model_pricing model in
    if cached_input_tokens == 0 && cache_write_tokens == 0
    then pos 0
    else micros_between (cache_gain p cached_input_tokens)
        (cached_input_tokens * p.cache_read_per_million + surcharge p cache_write_tokens)

-- `a.lower().strip() == b.lower().strip()`
unfoldable pub same_model : String → String → Bool
same_model a b = same_codes (strip (lower (codes a))) (strip (lower (codes b)))

unfoldable pub calculate_model_routing_savings : String → String → ℕ → ℕ → ℕ
calculate_model_routing_savings requested_model selected_model input_tokens output_tokens =
    if same_model requested_model selected_model
    then 0
    else micros (
        baseline (get_model_pricing requested_model) input_tokens output_tokens
        - baseline (get_model_pricing selected_model) input_tokens output_tokens)
