-- ===== src/Routing/Router/Choice.antt =====
-- What a routing decision is, and when there is none.
use mathlib.Core.List.{Mem, mem-cons_self, mem-cons_of_mem}
use jake_ai.Prelude.{
  All, Bool, Bool-cases, Exc, List, Option-cases, Result-cases, String, [], all, arith, eq_iff, err,
  false, filter, inl, inr, leb, length, mem_str, none, not, ok, refl, stop_iteration, str_eq, subst,
  true, ◌&&◌, ◌==◌, ◌>>=◌, ◌||◌, ◌∷◌, ◌≡◌, ◌≤◌, ◌⊎◌,
}
use jake_ai.Routing.Router.{
  ModelCapabilities, RoutingPolicy, RoutingDecision, Surroundings, is_compatible,
  is_permitted_provider, has_capability, within_budget, min_quality, quality_of, known_models,
  compatible_candidates, provider_name,
}
use jake_ai.Routing.Router.Selection.{
  first_where, cost_aware, select, selection, route, decision, of_provider, of_model, is_cost_aware,
}
use jake_ai.Routing.Router.Filters.{All-by_score, select-All}

-- the capabilities of the requested model, and the candidates
abbrev pub requested_by : Surroundings → RoutingPolicy → ModelCapabilities
requested_by s p = s.get_capabilities p.requested_model (provider_name s p p.requested_model)

abbrev pub candidates_for : Surroundings → RoutingPolicy → List ModelCapabilities
candidates_for s p = compatible_candidates s p p.requested_model (requested_by s p)

-- A model that the router knows, from the catalog or as the one requested, and that passes every hard
-- filter of the policy.
abbrev pub IsCandidate : Surroundings → RoutingPolicy → ModelCapabilities → Type 0
IsCandidate s p c =
    Mem c (known_models s p.requested_model (requested_by s p))
    × (is_compatible s p p.requested_model c ≡ true)

filtered-All :
    (all_of_them : List ModelCapabilities) (test : ModelCapabilities → Bool)
    (cs : List ModelCapabilities)
    → ((c : ModelCapabilities) → Mem c cs → Mem c all_of_them)
    → All (λ c. Mem c all_of_them × (test c ≡ true)) (filter test cs)
filtered-All all_of_them test [] h = tt
filtered-All all_of_them test (c ∷ cs) h =
    let later = filtered-All all_of_them test cs (λ d m. h d (mem-cons_of_mem c m)) in
    elim (Bool-cases (test c)) [
      | inl kept ↦ rw kept ((h c mem-cons_self, kept), later)
      | inr dropped ↦ rw dropped later
    ]

candidates_compatible :
    (s : Surroundings) (p : RoutingPolicy) → All (IsCandidate s p) (candidates_for s p)
unfolding compatible_candidates
candidates_compatible s p =
    let known = known_models s p.requested_model (requested_by s p) in
    All-by_score (IsCandidate s p) p _
      (filtered-All known (is_compatible s p p.requested_model) known (λ c m. m))

-- The hard filters, one by one.
abbrev pub PassesFilters : Surroundings → RoutingPolicy → ModelCapabilities → Type 0
PassesFilters s p c =
    ((p.allowed_providers ≡ []) ⊎ (mem_str c.provider p.allowed_providers ≡ true))
    × (mem_str c.provider p.disallowed_providers ≡ false)
    × ((p.context_tokens ≡ 0) ⊎ (p.context_tokens ≤ c.context_window))
    × (all (has_capability c) p.required_capabilities ≡ true)
    × (within_budget p c ≡ true)
    × ((c.model ≡ p.requested_model) ⊎ (min_quality p ≤ quality_of c.model))
    × ((str_eq c.provider "local" ≡ false) ⊎ (s.local_available ≡ true))

either : (a b : Bool) → (a || b) ≡ true → (a ≡ true) ⊎ (b ≡ true)
either true b h = inl refl
either false b h = inr h

empty_list : (xs : List String) → (length xs == 0) ≡ true → xs ≡ []
empty_list [] h = refl
empty_list (x ∷ xs) h = ground arith

map_either {ℓ} : {A B C D : Type ℓ} → (A → C) → (B → D) → A ⊎ B → C ⊎ D
map_either f g (inl a) = inl (f a)
map_either f g (inr b) = inr (g b)

compatible-PassesFilters :
    (s : Surroundings) (p : RoutingPolicy) (c : ModelCapabilities)
    → is_compatible s p p.requested_model c ≡ true
    → PassesFilters s p c
unfolding is_compatible is_permitted_provider
compatible-PassesFilters s p c h = (
  map_either (empty_list p.allowed_providers) (λ e. e) (either _ _ (ground arith)),
  ground arith,
  map_either (λ e. ground arith) (λ e. ground arith)
      (either (p.context_tokens == 0) (leb p.context_tokens c.context_window) (ground arith)),
  ground arith,
  ground arith,
  map_either ((eq_iff c.model p.requested_model).0) (λ e. ground arith)
      (either (str_eq c.model p.requested_model) (leb (min_quality p) (quality_of c.model))
        (ground arith)),
  map_either (λ e. ground arith) (λ e. e)
      (either (not (str_eq c.provider "local")) s.local_available (ground arith)),
)

-- A decision for a known model that passes every hard filter.
abbrev pub IsBacked : Surroundings → RoutingPolicy → RoutingDecision → Type 0
IsBacked s p d =
    (c : ModelCapabilities) × Mem c (known_models s p.requested_model (requested_by s p))
    × PassesFilters s p c
    × (d.selected_provider ≡ c.provider)
    × (d.selected_model ≡ c.model)
    × (d.estimated_input_cost ≡ c.input_pricing)

selected-IsBacked :
    (s : Surroundings) (p : RoutingPolicy) (d : RoutingDecision) (requested top : ModelCapabilities)
    (cs all_of_them : List ModelCapabilities)
    → All (IsCandidate s p) (top ∷ cs)
    → (selection s p (provider_name s p p.requested_model) p.requested_model requested (top ∷ cs)
        >>= λ chosen. ok (decision p requested all_of_them chosen))
      ≡ ok d
    → IsBacked s p d
unfolding selection decision
selected-IsBacked s p d requested top cs all_of_them fits e =
    elim (Result-cases
      (select p (provider_name s p p.requested_model) p.requested_model requested top (top ∷ cs))) [
        | inl (x, failed) ↦ ground arith
        | inr (c, chosen) ↦
            let (known, fit) =
              select-All (IsCandidate s p) p (provider_name s p p.requested_model) p.requested_model
                requested top c (top ∷ cs) fits.0 fits chosen in
            (c, known, compatible-PassesFilters s p c fit, ground arith, ground arith, ground arith)
      ]

-- Where any model passes the hard filters (whitelist, blacklist, context, capabilities, budget, quality
-- and local health), the decision is for one that does: a model of the catalog, or the requested one as
-- the catalog describes it.
pub route_respects_filters :
    (s : Surroundings) (p : RoutingPolicy) (d : RoutingDecision) (top : ModelCapabilities)
    (cs : List ModelCapabilities)
    → candidates_for s p ≡ top ∷ cs
    → route s p ≡ ok d
    → IsBacked s p d
unfolding route
route_respects_filters s p d top cs found e =
    selected-IsBacked s p d (requested_by s p) top cs (candidates_for s p)
      (subst (λ ks. All (IsCandidate s p) ks) found (candidates_compatible s p))
      (subst
        (λ ks.
          (selection s p (provider_name s p p.requested_model) p.requested_model (requested_by s p)
              ks
            >>= λ chosen. ok (decision p (requested_by s p) (candidates_for s p) chosen))
          ≡ ok d)
        found e)

-- the models that cost-aware routing looks for
abbrev pub is_cheap_of : String → ModelCapabilities → Bool
is_cheap_of provider c = of_provider provider c && leb c.input_pricing 500000

select_fails :
    (p : RoutingPolicy) (provider model : String) (requested top : ModelCapabilities)
    (cs : List ModelCapabilities) (e : Exc)
    → select p provider model requested top cs ≡ err e
    → (e ≡ stop_iteration)
      × (is_cost_aware p requested ≡ true)
      × (first_where (is_cheap_of provider) cs ≡ none)
      × (first_where (of_model model) cs ≡ none)
unfolding select cost_aware
select_fails p provider model requested top cs e h =
    elim (Option-cases (first_where (is_cheap_of provider) cs)) [
      | inr (c, cheap) ↦ ground arith
      | inl none_cheap ↦ elim (Option-cases (first_where (of_model model) cs)) [
        | inr (c, named) ↦ ground arith
        | inl none_named ↦ (ground arith, ground arith, none_cheap, none_named)
      ]
    ]

selection_fails :
    (s : Surroundings) (p : RoutingPolicy) (provider model : String) (requested : ModelCapabilities)
    (cs all_of_them : List ModelCapabilities) (e : Exc)
    → (selection s p provider model requested cs >>= λ chosen.
        ok (decision p requested all_of_them chosen))
      ≡ err e
    → (e ≡ stop_iteration)
      × (is_cost_aware p requested ≡ true)
      × (first_where (is_cheap_of provider) cs ≡ none)
      × (first_where (of_model model) cs ≡ none)
unfolding selection decision
selection_fails s p provider model requested [] all_of_them e h = ground arith
selection_fails s p provider model requested (top ∷ cs) all_of_them e h =
    select_fails p provider model requested top (top ∷ cs) e (ground arith)

-- A routing that raises lets a StopIteration out: cost-aware routing of a simple chat for a model dearer
-- than half a dollar, where no candidate of the provider is cheap and the model is no candidate itself.
pub route_fails :
    (s : Surroundings) (p : RoutingPolicy) (e : Exc)
    → route s p ≡ err e
    → (e ≡ stop_iteration)
      × (is_cost_aware p (requested_by s p) ≡ true)
      × (first_where (is_cheap_of (provider_name s p p.requested_model)) (candidates_for s p)
          ≡ none)
      × (first_where (of_model p.requested_model) (candidates_for s p) ≡ none)
unfolding route
route_fails s p e h =
    selection_fails s p (provider_name s p p.requested_model) p.requested_model (requested_by s p)
      (candidates_for s p) (candidates_for s p) e h
