-- ===== src/Routing/Router/Tests.antt =====
-- A catalog of three models, a policy that is for one provider only, and a simple chat that is too long
-- for the model that it asks for.
use jake_ai.Prelude.{
  String, [], contains, err, false, if◌then◌else◌, is_prefix, lookup, none, ok, refl, some,
  stop_iteration, str_eq, true, ℕ, ◌∷◌, ◌≡◌, ◌≤◌,
}
use jake_ai.Routing.Router.{
  ModelCapabilities, RoutingPolicy, RoutingDecision, Surroundings, provider_name,
  compatible_candidates, by_score, known_models, is_default, is_compatible, is_permitted_provider,
  has_capability, within_budget, insert_by_score, candidate_score, capability_count, is_workload,
  min_quality, not_blacklisted, quality_of, resolved_provider, scores_over, weights, whitelisted,
}
use jake_ai.Routing.Router.Selection.{
  route, in_chain, is_cost_aware, first_where, of_model, selection, select, decision,
  requested_or_top, fallbacks, augment, push, canonical_fallbacks, cheaper, cost_aware, is_fallback,
  is_tier_of, push_all, reasoning,
}
use jake_ai.Routing.Router.Choice.{
  IsBacked, candidates_for, requested_by, is_cheap_of, route_respects_filters, route_fails,
}
use jake_ai.Routing.Router.Chain.{IsChain, route-IsChain, whitelist_ignored}

abbrev capabilities : String → String → ℕ → ℕ → ModelCapabilities
capabilities provider model context_window input_pricing = record {
  provider = provider;
  model = model;
  context_window = context_window;
  supports_streaming = true;
  supports_tools = true;
  supports_json = true;
  supports_prompt_cache = true;
  supports_embeddings = false;
  supports_reasoning = false;
  input_pricing = input_pricing;
  output_pricing = 0;
}

abbrev sonnet : ModelCapabilities
sonnet = capabilities "anthropic" "claude-3-5-sonnet" 200000 3000000

abbrev big : ModelCapabilities
big = capabilities "openai" "gpt-4o" 128000 2500000

abbrev long : ModelCapabilities
long = capabilities "gemini" "gemini-1.5-flash" 1048576 75000

abbrev get : String → String → ModelCapabilities
get model provider =
    if str_eq model "gpt-4o" then big else if str_eq model "claude-3-5-sonnet" then sonnet else long

abbrev surroundings : Surroundings
surroundings = record {
  list_all = sonnet ∷ big ∷ long ∷ [];
  get_capabilities = get;
  resolve_provider = λ model. if str_eq model "gpt-4o" then "openai" else "anthropic";
  local_available = false;
}

abbrev policy : String → RoutingPolicy
policy model = record {
  requested_model = model;
  preferred_provider = none;
  required_capabilities = "supports_tools" ∷ [];
  max_input_cost_per_million = none;
  workload_class = none;
  allow_fallback = true;
  allowed_providers = "anthropic" ∷ [];
  disallowed_providers = "gemini" ∷ [];
  cost_aware_routing = false;
  context_tokens = 1000;
  quality_requirement = none;
  quality_weight = 40;
  capability_weight = 25;
  latency_weight = 15;
  cost_weight = 20;
}

abbrev only_anthropic : RoutingPolicy
only_anthropic = policy "claude-3-5-sonnet"

abbrev decided : RoutingDecision
decided = record {
  selected_provider = "anthropic";
  selected_model = "claude-3-5-sonnet";
  fallback_chain = ("openai", "gpt-4o") ∷ [];
  estimated_input_cost = 3000000;
  estimated_output_cost = 0;
  cost_savings_per_million = 0;
}

routed : route surroundings only_anthropic ≡ ok decided
unfolding route selection compatible_candidates by_score known_models is_default is_compatible
    is_permitted_provider has_capability within_budget insert_by_score select is_cost_aware decision
    requested_or_top fallbacks first_where augment push lookup contains is_prefix
    canonical_fallbacks cheaper cost_aware in_chain is_fallback is_tier_of push_all reasoning
    candidate_score capability_count is_workload min_quality not_blacklisted provider_name
    quality_of resolved_provider scores_over weights whitelisted
routed = refl

one_candidate : candidates_for surroundings only_anthropic ≡ sonnet ∷ []
unfolding compatible_candidates by_score known_models is_default is_compatible is_permitted_provider
    has_capability within_budget insert_by_score
one_candidate = refl

route_respects_filters_example : IsBacked surroundings only_anthropic decided
route_respects_filters_example =
    route_respects_filters surroundings only_anthropic decided sonnet [] one_candidate routed

route-IsChain_example : IsChain only_anthropic "anthropic" (("openai", "gpt-4o") ∷ []) × (1 ≤ 3)
route-IsChain_example = route-IsChain surroundings only_anthropic decided routed

whitelist_ignored_example : in_chain "openai" "gpt-4o" (("openai", "gpt-4o") ∷ []) ≡ true
whitelist_ignored_example =
    whitelist_ignored surroundings only_anthropic decided routed refl refl refl

abbrev long_chat : RoutingPolicy
long_chat = record (policy "gpt-4o") {
  workload_class = some "simple_chat";
  allowed_providers = [];
  disallowed_providers = [];
  cost_aware_routing = true;
  context_tokens = 150000;
}

raised : route surroundings long_chat ≡ err stop_iteration
unfolding route selection compatible_candidates by_score known_models is_default is_compatible
    is_permitted_provider has_capability within_budget min_quality is_workload quality_of lookup
    insert_by_score scores_over candidate_score contains is_prefix augment canonical_fallbacks
    cheaper cost_aware decision fallbacks first_where in_chain is_cost_aware is_fallback is_tier_of
    push push_all reasoning requested_or_top select capability_count not_blacklisted provider_name
    resolved_provider weights whitelisted
raised = refl

route_fails_example :
    (stop_iteration ≡ stop_iteration)
    × (is_cost_aware long_chat (requested_by surroundings long_chat) ≡ true)
    × (first_where
          (is_cheap_of (provider_name surroundings long_chat "gpt-4o"))
          (candidates_for surroundings long_chat)
        ≡ none)
    × (first_where (of_model "gpt-4o") (candidates_for surroundings long_chat) ≡ none)
route_fails_example = route_fails surroundings long_chat stop_iteration raised
