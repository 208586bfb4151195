-- ===== src/Routing/Router/Selection.antt =====
-- `ModelRouter.route` of routing/router.py: the selection among the compatible candidates, the fallback
-- chain and the decision.
use jake_ai.Prelude.{
  Bool, List, Option, Result, String, [], codes, contains, err, false, filter, if◌then◌else◌, leb,
  length, ltb, mem_str, none, not, ok, or_else, some, stop_iteration, str_eq, true, ◌&&◌, ◌++◌, ◌-◌,
  ◌>>=◌, ◌||◌, ◌∷◌,
}
use jake_ai.Routing.Router.{
  ModelCapabilities, RoutingPolicy, Surroundings, RoutingDecision, is_workload, is_default,
  within_budget, provider_name, compatible_candidates,
}

-- `next(c for c in candidates if test(c))`, if there is one
unfoldable pub first_where :
    (ModelCapabilities → Bool) → List ModelCapabilities → Option ModelCapabilities
first_where test [] = none
first_where test (c ∷ cs) = let rest = first_where test cs in if test c then some c else rest

abbrev pub of_model : String → ModelCapabilities → Bool
of_model model c = str_eq c.model model

abbrev pub of_provider : String → ModelCapabilities → Bool
of_provider provider c = str_eq c.provider provider

-- the cost-efficient tier of a provider
unfoldable pub is_tier_of : String → ModelCapabilities → Bool
is_tier_of provider c =
    (str_eq provider "gemini" && of_model "gemini-1.5-flash" c)
    || (str_eq provider "openai" && of_model "gpt-4o-mini" c)
    || (str_eq provider "anthropic" && of_model "claude-3-haiku" c)

-- Case A, over the budget; `top` is the best of the candidates
unfoldable pub cheaper : String → ModelCapabilities → List ModelCapabilities → ModelCapabilities
cheaper provider top candidates =
    or_else (first_where (is_tier_of provider) candidates)
      (or_else (first_where (of_provider provider) candidates) top)

-- Case B, a reasoning model
unfoldable pub reasoning : String → ModelCapabilities → List ModelCapabilities → ModelCapabilities
reasoning provider top candidates =
    let able = filter (λ (c : ModelCapabilities). c.supports_reasoning) candidates in
    or_else (first_where (of_provider provider) able)
      (or_else (first_where (of_model "o3-mini") able) (or_else (first_where (λ c. true) able) top))

-- Case C, a cheap model of the provider, else the requested one, which need not be there
unfoldable pub cost_aware : String → String → List ModelCapabilities → Result ModelCapabilities
cost_aware provider model candidates =
    elim (first_where
      (λ (c : ModelCapabilities). of_provider provider c && leb c.input_pricing 500000)
      candidates) [
        | some c ↦ ok c
        | none ↦ elim (first_where (of_model model) candidates) [
          | some c ↦ ok c
          | none ↦ err stop_iteration
        ]
      ]

-- Cases D and E, the requested model if it is among the candidates, else the best
unfoldable pub requested_or_top :
    String → ModelCapabilities → List ModelCapabilities → ModelCapabilities
requested_or_top model top candidates =
    if is_default model then top else or_else (first_where (of_model model) candidates) top

unfoldable pub is_cost_aware : RoutingPolicy → ModelCapabilities → Bool
is_cost_aware p requested =
    p.cost_aware_routing && is_workload "simple_chat" p && ltb 500000 requested.input_pricing

-- among `top` and those behind it
unfoldable pub select :
    RoutingPolicy
    → String
    → String
    → ModelCapabilities
    → ModelCapabilities
    → List ModelCapabilities
    → Result ModelCapabilities
select p provider model requested top candidates =
    if not (within_budget p requested)
    then ok (cheaper provider top candidates)
    else if mem_str "supports_reasoning" p.required_capabilities && not requested.supports_reasoning
    then ok (reasoning provider top candidates)
    else if is_cost_aware p requested
    then cost_aware provider model candidates
    else ok (requested_or_top model top candidates)

-- what is selected: the capabilities, and the provider and the model that are named
pub record Selection : Type 0 where
  pub capabilities : ModelCapabilities
  pub provider : String
  pub model : String

abbrev named_after : ModelCapabilities → Selection
named_after c = record { capabilities = c; provider = c.provider; model = c.model }

unfoldable pub selection :
    Surroundings
    → RoutingPolicy
    → String
    → String
    → ModelCapabilities
    → List ModelCapabilities
    → Result Selection
selection s p provider model requested [] =
    if is_default model
    then ok (record {
      capabilities = s.get_capabilities "gemini-1.5-flash" "gemini";
      provider = "gemini";
      model = "gemini-1.5-flash";
    })
    else ok (record { capabilities = requested; provider = provider; model = model })
selection s p provider model requested (top ∷ cs) =
    select p provider model requested top (top ∷ cs) >>= λ c. ok (named_after c)

-- `canonical_fallbacks`
unfoldable pub canonical_fallbacks : String → String → List (String × String)
canonical_fallbacks provider model =
    if str_eq provider "anthropic"
    then ("openai", "gpt-4o") ∷ ("gemini", "gemini-1.5-flash") ∷ []
    else if str_eq provider "openai"
    then (if contains (codes "mini") (codes model)
        then ("gemini", "gemini-1.5-flash") ∷ ("groq", "llama-3.1-8b-instant") ∷ []
        else ("anthropic", "claude-3-5-sonnet") ∷ ("gemini", "gemini-1.5-pro") ∷ [])
    else if str_eq provider "gemini"
    then ("openai", "gpt-4o-mini") ∷ ("groq", "llama-3.3-70b-versatile") ∷ []
    else ("openai", "gpt-4o-mini") ∷ ("gemini", "gemini-1.5-flash") ∷ []

-- `(p, m) in fallback_chain`
unfoldable pub in_chain : String → String → List (String × String) → Bool
in_chain p m [] = false
in_chain p m ((q, n) ∷ chain) = (str_eq q p && str_eq n m) || in_chain p m chain

unfoldable pub is_fallback :
    RoutingPolicy → String → List (String × String) → String → String → Bool
is_fallback p selected chain provider model =
    not (mem_str provider p.disallowed_providers)
    && not (str_eq provider selected)
    && not (in_chain provider model chain)

unfoldable pub push :
    RoutingPolicy → String → String × String → List (String × String) → List (String × String)
push p selected (provider, model) chain =
    if is_fallback p selected chain provider model then chain ++ ((provider, model) ∷ []) else chain

unfoldable pub push_all :
    RoutingPolicy
    → String
    → List (String × String)
    → List (String × String)
    → List (String × String)
push_all p selected [] chain = chain
push_all p selected (entry ∷ entries) chain =
    push_all p selected entries (push p selected entry chain)

-- the remaining candidates, until the chain has three
unfoldable pub augment :
    RoutingPolicy
    → String
    → List ModelCapabilities
    → List (String × String)
    → List (String × String)
augment p selected [] chain = chain
augment p selected (c ∷ cs) chain =
    let longer = push p selected (c.provider, c.model) chain in
    let more = augment p selected cs longer in if leb 3 (length longer) then longer else more

unfoldable pub fallbacks :
    RoutingPolicy → Selection → List ModelCapabilities → List (String × String)
fallbacks p chosen candidates =
    if p.allow_fallback
    then augment p chosen.provider candidates
        (push_all p chosen.provider (canonical_fallbacks chosen.provider chosen.model) [])
    else []

unfoldable pub decision :
    RoutingPolicy → ModelCapabilities → List ModelCapabilities → Selection → RoutingDecision
decision p requested candidates chosen = record {
  selected_provider = chosen.provider;
  selected_model = chosen.model;
  fallback_chain = fallbacks p chosen candidates;
  estimated_input_cost = chosen.capabilities.input_pricing;
  estimated_output_cost = chosen.capabilities.output_pricing;
  cost_savings_per_million = requested.input_pricing - chosen.capabilities.input_pricing;
}

-- `model` is the requested name, stripped
unfoldable pub route : Surroundings → RoutingPolicy → Result RoutingDecision
route s p =
    let model = p.requested_model in
    let provider = provider_name s p model in
    let requested = s.get_capabilities model provider in
    let candidates = compatible_candidates s p model requested in
    selection s p provider model requested candidates >>= λ chosen.
    ok (decision p requested candidates chosen)
