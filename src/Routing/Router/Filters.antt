-- ===== src/Routing/Router/Filters.antt =====
-- The hard filters hold of what is selected, and when the selection fails.
use jake_ai.Prelude.{
  All, Bool, Bool-cases, List, Option-cases, String, [], arith, filter, inl, inr, leb, mem_str, not,
  ok, or_else, some, subst, true, ◌&&◌, ◌∷◌, ◌≡◌,
}
use jake_ai.Routing.Router.{
  ModelCapabilities, RoutingPolicy, by_score, insert_by_score, is_default, within_budget,
}
use jake_ai.Routing.Router.Selection.{
  first_where, cheaper, reasoning, cost_aware, requested_or_top, select, is_tier_of, of_provider,
  of_model, is_cost_aware,
}

module _ (P : ModelCapabilities → Type 0) where
  All-insert_by_score :
      (p : RoutingPolicy) (c : ModelCapabilities) (cs : List ModelCapabilities)
      → P c
      → All P cs
      → All P (insert_by_score p c cs)
  unfolding insert_by_score
  All-insert_by_score p c [] h hs = (h, tt)
  All-insert_by_score p c (d ∷ ds) h (hd, hs) = ground (arith, All-insert_by_score p c ds h hs)

  pub All-by_score :
      (p : RoutingPolicy) (cs : List ModelCapabilities) → All P cs → All P (by_score p cs)
  unfolding by_score
  All-by_score p [] h = tt
  All-by_score p (c ∷ cs) (h, hs) = All-insert_by_score p c (by_score p cs) h (All-by_score p cs hs)

  All-filter_sub :
      (test : ModelCapabilities → Bool) (cs : List ModelCapabilities)
      → All P cs
      → All P (filter test cs)
  All-filter_sub test [] h = tt
  All-filter_sub test (c ∷ cs) (h, hs) = ground (arith, All-filter_sub test cs hs)

  first_where-All :
      (test : ModelCapabilities → Bool) (cs : List ModelCapabilities) (d : ModelCapabilities)
      → All P cs
      → P d
      → P (or_else (first_where test cs) d)
  unfolding first_where
  first_where-All test [] d h hd = hd
  first_where-All test (c ∷ cs) d (h, hs) hd = elim (Bool-cases (test c)) [
    | inl met ↦ rw met h
    | inr unmet ↦ rw unmet (first_where-All test cs d hs hd)
  ]

  first_where-some :
      (test : ModelCapabilities → Bool) (cs : List ModelCapabilities) (c : ModelCapabilities)
      → All P cs
      → first_where test cs ≡ some c
      → P c
  unfolding first_where
  first_where-some test [] c h e = cc
  first_where-some test (d ∷ ds) c (h, hs) e = elim (Bool-cases (test d)) [
    | inl met ↦ let same : d ≡ c = ground arith in subst P same h
    | inr unmet ↦ first_where-some test ds c hs (ground arith)
  ]

  cheaper-All :
      (provider : String) (top : ModelCapabilities) (cs : List ModelCapabilities)
      → P top
      → All P cs
      → P (cheaper provider top cs)
  unfolding cheaper
  cheaper-All provider top cs h hs =
      first_where-All (is_tier_of provider) cs _ hs
        (first_where-All (of_provider provider) cs top hs h)

  reasoning-All :
      (provider : String) (top : ModelCapabilities) (cs : List ModelCapabilities)
      → P top
      → All P cs
      → P (reasoning provider top cs)
  unfolding reasoning
  reasoning-All provider top cs h hs =
      let able = All-filter_sub (λ (c : ModelCapabilities). c.supports_reasoning) cs hs in
      first_where-All (of_provider provider) _ _ able
        (first_where-All (of_model "o3-mini") _ _ able (first_where-All (λ c. true) _ top able h))

  cost_aware-All :
      (provider model : String) (cs : List ModelCapabilities) (c : ModelCapabilities)
      → All P cs
      → cost_aware provider model cs ≡ ok c
      → P c
  unfolding cost_aware
  cost_aware-All provider model cs c hs e =
      elim (Option-cases (
        first_where
          (λ (d : ModelCapabilities). of_provider provider d && leb d.input_pricing 500000) cs)) [
            | inr (d, cheap) ↦
                let same : d ≡ c = ground arith in subst P same (first_where-some _ cs d hs cheap)
            | inl no_cheap ↦ elim (Option-cases (first_where (of_model model) cs)) [
              | inr (d, named) ↦
                  let same : d ≡ c = ground arith in subst P same (first_where-some _ cs d hs named)
              | inl missing ↦ ground arith
            ]
          ]

  requested_or_top-All :
      (model : String) (top : ModelCapabilities) (cs : List ModelCapabilities)
      → P top
      → All P cs
      → P (requested_or_top model top cs)
  unfolding requested_or_top
  requested_or_top-All model top cs h hs = elim (Bool-cases (is_default model)) [
    | inl unnamed ↦ rw unnamed h
    | inr named ↦ rw named (first_where-All (of_model model) cs top hs h)
  ]

  pub select-All :
      (p : RoutingPolicy) (provider model : String) (requested top c : ModelCapabilities)
      (cs : List ModelCapabilities)
      → P top
      → All P cs
      → select p provider model requested top cs ≡ ok c
      → P c
  unfolding select
  select-All p provider model requested top c cs h hs e =
      elim (Bool-cases (within_budget p requested)) [
        | inr dear ↦
            let same : cheaper provider top cs ≡ c = ground arith in
            subst P same (cheaper-All provider top cs h hs)
        | inl affordable ↦
            elim (Bool-cases (
              mem_str "supports_reasoning" p.required_capabilities
              && not requested.supports_reasoning)) [
                | inl lacking ↦
                    let same : reasoning provider top cs ≡ c = ground arith in
                    subst P same (reasoning-All provider top cs h hs)
                | inr able ↦ elim (Bool-cases (is_cost_aware p requested)) [
                  | inl thrifty ↦ cost_aware-All provider model cs c hs (ground arith)
                  | inr free ↦
                      let same : requested_or_top model top cs ≡ c = ground arith in
                      subst P same (requested_or_top-All model top cs h hs)
                ]
              ]
      ]
