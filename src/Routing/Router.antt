-- ===== src/Routing/Router.antt =====
-- routing/router.py: the choice of a model and its fallback chain. Prices are micro-dollars per million
-- tokens; quality, latency and the weights of a policy are hundredths, and a score is compared as what
-- speaks for a model and what its price takes away, in units of 1/1500000000. The rounding of the floats
-- is left out. The catalog of models (providers/base.py), the registry's choice of a provider for a
-- name and whether the local model is enabled and healthy are arguments.
pub mod Selection
pub mod Filters
pub mod Choice
mod Tests
pub mod Chain
use jake_ai.Prelude.{
  Bool, Dict, List, Option, String, [], all, false, filter, if◌then◌else◌, leb, length, lookup, ltb,
  mem_str, min, none, not, or_else, some, str_eq, true, ℕ, ◌&&◌, ◌*◌, ◌++◌, ◌+◌, ◌==◌, ◌||◌, ◌∷◌,
}

pub record ModelCapabilities : Type 0 where
  pub provider : String
  pub model : String
  pub context_window : ℕ
  pub supports_streaming : Bool
  pub supports_tools : Bool
  pub supports_json : Bool
  pub supports_prompt_cache : Bool
  pub supports_embeddings : Bool
  pub supports_reasoning : Bool
  pub input_pricing : ℕ
  pub output_pricing : ℕ

pub record RoutingPolicy : Type 0 where
  -- `requested_model.strip()`
  pub requested_model : String
  pub preferred_provider : Option String
  pub required_capabilities : List String
  pub max_input_cost_per_million : Option ℕ
  pub workload_class : Option String
  pub allow_fallback : Bool
  pub allowed_providers : List String
  pub disallowed_providers : List String
  pub cost_aware_routing : Bool
  pub context_tokens : ℕ
  pub quality_requirement : Option ℕ
  pub quality_weight : ℕ
  pub capability_weight : ℕ
  pub latency_weight : ℕ
  pub cost_weight : ℕ

-- what the router has around it
pub record Surroundings : Type 0 where
  -- `ModelCapabilityCatalog.list_all` and `ModelCapabilityCatalog.get`
  pub list_all : List ModelCapabilities
  pub get_capabilities : String → String → ModelCapabilities
  -- `resolve_provider_name_for_model`
  pub resolve_provider : String → String
  pub local_available : Bool

pub record RoutingDecision : Type 0 where
  pub selected_provider : String
  pub selected_model : String
  pub fallback_chain : List (String × String)
  pub estimated_input_cost : ℕ
  pub estimated_output_cost : ℕ
  pub cost_savings_per_million : ℕ

-- `MODEL_QUALITY_MAP`
abbrev pub model_quality : Dict ℕ
model_quality =
    ("o1", 100)
    ∷ ("claude-3-5-sonnet", 96)
    ∷ ("o3-mini", 95)
    ∷ ("gpt-4o", 94)
    ∷ ("claude-3-opus", 93)
    ∷ ("deepseek-reasoner", 93)
    ∷ ("gemini-1.5-pro", 92)
    ∷ ("gemini-2.0-flash", 88)
    ∷ ("deepseek-chat", 85)
    ∷ ("llama-3.3-70b-versatile", 84)
    ∷ ("gpt-4o-mini", 78)
    ∷ ("gemini-1.5-flash", 77)
    ∷ ("claude-3-haiku", 75)
    ∷ ("local-model", 72)
    ∷ ("llama-3.1-8b-instant", 65)
    ∷ ("openrouter/auto", 80)
    ∷ []

-- `MODEL_LATENCY_SCORE`
abbrev pub model_latency : Dict ℕ
model_latency =
    ("llama-3.1-8b-instant", 98)
    ∷ ("gemini-1.5-flash", 95)
    ∷ ("gemini-2.0-flash", 95)
    ∷ ("gpt-4o-mini", 92)
    ∷ ("claude-3-haiku", 90)
    ∷ ("local-model", 85)
    ∷ ("deepseek-chat", 80)
    ∷ ("llama-3.3-70b-versatile", 78)
    ∷ ("gpt-4o", 75)
    ∷ ("claude-3-5-sonnet", 72)
    ∷ ("gemini-1.5-pro", 70)
    ∷ ("o3-mini", 55)
    ∷ ("deepseek-reasoner", 50)
    ∷ ("claude-3-opus", 35)
    ∷ ("o1", 30)
    ∷ ("openrouter/auto", 70)
    ∷ []

unfoldable pub quality_of : String → ℕ
quality_of model = or_else (lookup model model_quality) 75

abbrev count : Bool → ℕ
count true = 1
count false = 0

-- `sum(1.0 for cap in caps if cap)`, of five
unfoldable pub capability_count : ModelCapabilities → ℕ
capability_count c =
    count c.supports_streaming
    + count c.supports_tools
    + count c.supports_json
    + count c.supports_prompt_cache
    + count c.supports_reasoning

unfoldable pub is_workload : String → RoutingPolicy → Bool
is_workload name p = str_eq (or_else p.workload_class "") name

-- the weights of quality, capability, latency and cost
unfoldable pub weights : RoutingPolicy → ℕ × ℕ × ℕ × ℕ
weights p =
    if p.cost_aware_routing || is_workload "simple_chat" p
    then (30, 15, 15, 40)
    else (p.quality_weight, p.capability_weight, p.latency_weight, p.cost_weight)

-- `_compute_candidate_score`: what speaks for the model, and what its price takes away
unfoldable pub candidate_score : RoutingPolicy → ModelCapabilities → ℕ × ℕ
candidate_score p c =
    let (w_quality, w_capability, w_latency, w_cost) = weights p in
    (
      (w_quality * quality_of c.model
            + w_capability * 20 * capability_count c
            + w_latency * or_else (lookup c.model model_latency) 70)
          * 150000,
      w_cost * min 15000000 c.input_pricing,
    )

-- at least the score of another
unfoldable pub scores_over : ℕ × ℕ → ℕ × ℕ → Bool
scores_over (gain, loss) (gain', loss') = leb (gain' + loss) (gain + loss')

-- the provider that the request resolves to, before the whitelist and the blacklist
unfoldable pub resolved_provider : Surroundings → RoutingPolicy → String → String
resolved_provider s p model =
    let named = or_else p.preferred_provider "" in
    if str_eq named "" then s.resolve_provider model else named

-- falls back to the first provider that is allowed
unfoldable pub whitelisted : RoutingPolicy → String → String
whitelisted p provider = elim p.allowed_providers [
  | [] ↦ provider
  | first ∷ others ↦ if mem_str provider (first ∷ others) then provider else first
]

abbrev first_not_in : List String → List String → String → String
first_not_in [] disallowed provider = provider
first_not_in (alt ∷ alts) disallowed provider =
    let rest = first_not_in alts disallowed provider in
    if not (mem_str alt disallowed) then alt else rest

unfoldable pub not_blacklisted : RoutingPolicy → String → String
not_blacklisted p provider =
    if mem_str provider p.disallowed_providers
    then first_not_in ("openai" ∷ "gemini" ∷ "anthropic" ∷ "groq" ∷ []) p.disallowed_providers
        provider
    else provider

unfoldable pub provider_name : Surroundings → RoutingPolicy → String → String
provider_name s p model = not_blacklisted p (whitelisted p (resolved_provider s p model))

unfoldable pub is_default : String → Bool
is_default model = str_eq model "default" || str_eq model ""

-- the catalog, with the requested model if it lacks it
unfoldable pub known_models : Surroundings → String → ModelCapabilities → List ModelCapabilities
known_models s model requested =
    if not (is_default model)
      && all (λ (c : ModelCapabilities). not (str_eq c.model requested.model)) s.list_all
    then s.list_all ++ (requested ∷ [])
    else s.list_all

unfoldable pub min_quality : RoutingPolicy → ℕ
min_quality p = elim p.quality_requirement [
  | some q ↦ q
  | none ↦
      if is_workload "coding" p || is_workload "coding_context" p
      then 85
      else if is_workload "reasoning" p || is_workload "financial_reasoning" p
      then 90
      else if is_workload "simple_chat" p
      then 40
      else 60
]

-- whether `getattr(candidate, req_cap, False)` is true, for the fields of `ModelCapabilities` above
unfoldable pub has_capability : ModelCapabilities → String → Bool
has_capability c name =
    if str_eq name "supports_streaming"
    then c.supports_streaming
    else if str_eq name "supports_tools"
    then c.supports_tools
    else if str_eq name "supports_json"
    then c.supports_json
    else if str_eq name "supports_prompt_cache"
    then c.supports_prompt_cache
    else if str_eq name "supports_embeddings"
    then c.supports_embeddings
    else if str_eq name "supports_reasoning"
    then c.supports_reasoning
    else if str_eq name "provider"
    then not (str_eq c.provider "")
    else if str_eq name "model"
    then not (str_eq c.model "")
    else if str_eq name "context_window"
    then ltb 0 c.context_window
    else if str_eq name "input_pricing"
    then ltb 0 c.input_pricing
    else if str_eq name "output_pricing"
    then ltb 0 c.output_pricing
    else false

-- `max_input_cost_per_million is None or price <= max_input_cost_per_million`
unfoldable pub within_budget : RoutingPolicy → ModelCapabilities → Bool
within_budget p c = elim p.max_input_cost_per_million [
  | none ↦ true
  | some most ↦ leb c.input_pricing most
]

unfoldable pub is_permitted_provider : RoutingPolicy → String → Bool
is_permitted_provider p provider =
    (length p.allowed_providers == 0 || mem_str provider p.allowed_providers)
    && not (mem_str provider p.disallowed_providers)

-- the hard filters
unfoldable pub is_compatible : Surroundings → RoutingPolicy → String → ModelCapabilities → Bool
is_compatible s p model c =
    is_permitted_provider p c.provider
    && (p.context_tokens == 0 || leb p.context_tokens c.context_window)
    && all (has_capability c) p.required_capabilities
    && within_budget p c
    && (str_eq c.model model || leb (min_quality p) (quality_of c.model))
    && (not (str_eq c.provider "local") || s.local_available)

-- `sort(key=score, reverse=True)`, which keeps the order of equal scores
unfoldable pub insert_by_score :
    RoutingPolicy → ModelCapabilities → List ModelCapabilities → List ModelCapabilities
insert_by_score p c [] = c ∷ []
insert_by_score p c (d ∷ ds) =
    let rest = insert_by_score p c ds in
    if scores_over (candidate_score p c) (candidate_score p d) then c ∷ d ∷ ds else d ∷ rest

unfoldable pub by_score : RoutingPolicy → List ModelCapabilities → List ModelCapabilities
by_score p [] = []
by_score p (c ∷ cs) = insert_by_score p c (by_score p cs)

unfoldable pub compatible_candidates :
    Surroundings → RoutingPolicy → String → ModelCapabilities → List ModelCapabilities
compatible_candidates s p model requested =
    by_score p (filter (is_compatible s p model) (known_models s model requested))
