-- ===== src/Routing/Router/Chain.antt =====
-- The fallback chain: never back to the provider that was selected, never to one that is ruled out, never
-- twice to the same model, and short. The whitelist has no say in it.
use jake_ai.Prelude.{
  Bool-cases, List, String, [], arith, bind-ok, eq_iff, false, if_both, inl, inr, leb, length,
  length-append, mem_str, ok, refl, str_eq, subst, sym, true, ◌&&◌, ◌++◌, ◌+◌, ◌||◌, ◌∷◌, ◌≡◌, ◌≤◌,
}
use jake_ai.Routing.Router.{
  provider_name, compatible_candidates, ModelCapabilities, RoutingPolicy, Surroundings,
  RoutingDecision,
}
use jake_ai.Routing.Router.Selection.{
  in_chain, is_fallback, push, push_all, augment, canonical_fallbacks, fallbacks, route, Selection,
  decision, selection,
}

-- the entry is not on the rest
abbrev pub IsChain : RoutingPolicy → String → List (String × String) → Type 0
IsChain p selected [] = Unit
IsChain p selected ((provider, model) ∷ chain) =
    (mem_str provider p.disallowed_providers ≡ false)
    × (str_eq provider selected ≡ false)
    × (in_chain provider model chain ≡ false)
    × IsChain p selected chain

in_chain-append :
    (p m q n : String) (chain : List (String × String))
    → in_chain p m (chain ++ ((q, n) ∷ [])) ≡ (in_chain p m chain || (str_eq q p && str_eq n m))
unfolding in_chain
in_chain-append p m q n [] = ground arith
in_chain-append p m q n ((x, y) ∷ chain) = ground (arith, in_chain-append p m q n chain)

IsChain-append :
    (p : RoutingPolicy) (selected provider model : String) (chain : List (String × String))
    → IsChain p selected chain
    → mem_str provider p.disallowed_providers ≡ false
    → str_eq provider selected ≡ false
    → in_chain provider model chain ≡ false
    → IsChain p selected (chain ++ ((provider, model) ∷ []))
unfolding in_chain
IsChain-append p selected provider model [] h ruled other fresh = (ruled, other, refl, tt)
IsChain-append p selected provider model ((x, y) ∷ chain) (h1, h2, h3, hs) ruled other fresh = (
  h1,
  h2,
  ground (
    arith,
    in_chain-append x y provider model chain,
    eq_iff x provider,
    eq_iff provider x,
    eq_iff y model,
    eq_iff model y,
  ),
  IsChain-append p selected provider model chain hs ruled other (ground arith),
)

push-IsChain :
    (p : RoutingPolicy) (selected : String) (entry : String × String)
    (chain : List (String × String))
    → IsChain p selected chain
    → IsChain p selected (push p selected entry chain)
unfolding push is_fallback
push-IsChain p selected (provider, model) chain h =
    elim (Bool-cases (is_fallback p selected chain provider model)) [
      | inl fits ↦ rw fits (
          IsChain-append p selected provider model chain h (ground arith) (ground arith)
            (ground arith))
      | inr unfit ↦ rw unfit h
    ]

push_all-IsChain :
    (p : RoutingPolicy) (selected : String) (entries chain : List (String × String))
    → IsChain p selected chain
    → IsChain p selected (push_all p selected entries chain)
unfolding push_all
push_all-IsChain p selected [] chain h = h
push_all-IsChain p selected (entry ∷ entries) chain h =
    push_all-IsChain p selected entries (push p selected entry chain)
      (push-IsChain p selected entry chain h)

augment-IsChain :
    (p : RoutingPolicy) (selected : String) (cs : List ModelCapabilities)
    (chain : List (String × String))
    → IsChain p selected chain
    → IsChain p selected (augment p selected cs chain)
unfolding augment
augment-IsChain p selected [] chain h = h
augment-IsChain p selected (c ∷ cs) chain h =
    elim (Bool-cases (leb 3 (length (push p selected (c.provider, c.model) chain)))) [
      | inl full ↦ rw full (push-IsChain p selected (c.provider, c.model) chain h)
      | inr room ↦ rw room (
          augment-IsChain p selected cs (push p selected (c.provider, c.model) chain)
            (push-IsChain p selected (c.provider, c.model) chain h))
    ]

length-push :
    (p : RoutingPolicy) (selected : String) (entry : String × String)
    (chain : List (String × String))
    → length (push p selected entry chain) ≤ length chain + 1
unfolding push
length-push p selected (provider, model) chain =
    ground (arith, length-append chain ((provider, model) ∷ []))

length-augment :
    (p : RoutingPolicy) (selected : String) (cs : List ModelCapabilities)
    (chain : List (String × String))
    → length chain ≤ 2
    → length (augment p selected cs chain) ≤ 3
unfolding augment
length-augment p selected [] chain h = omega arith
length-augment p selected (c ∷ cs) chain h =
    elim (Bool-cases (leb 3 (length (push p selected (c.provider, c.model) chain)))) [
      | inl full ↦ rw full (omega (arith, length-push p selected (c.provider, c.model) chain))
      | inr room ↦ rw room (
          length-augment p selected cs (push p selected (c.provider, c.model) chain) (ground arith))
    ]

length-push_all :
    (p : RoutingPolicy) (selected : String) (entries chain : List (String × String))
    → length (push_all p selected entries chain) ≤ length chain + length entries
unfolding push_all
length-push_all p selected [] chain = omega arith
length-push_all p selected (entry ∷ entries) chain = omega (
  arith,
  length-push_all p selected entries (push p selected entry chain),
  length-push p selected entry chain,
)

length-canonical_fallbacks :
    (provider model : String) → length (canonical_fallbacks provider model) ≡ 2
unfolding canonical_fallbacks
length-canonical_fallbacks provider model = ground arith

fallbacks-IsChain :
    (p : RoutingPolicy) (chosen : Selection) (cs : List ModelCapabilities)
    → IsChain p chosen.provider (fallbacks p chosen cs) × (length (fallbacks p chosen cs) ≤ 3)
unfolding fallbacks
fallbacks-IsChain p chosen cs =
    let canonical = canonical_fallbacks chosen.provider chosen.model in
    let start = push_all p chosen.provider canonical [] in
    if_both (λ chain. IsChain p chosen.provider chain × (length chain ≤ 3)) p.allow_fallback _ _
      (
        augment-IsChain p chosen.provider cs start
            (push_all-IsChain p chosen.provider canonical [] tt),
        length-augment p chosen.provider cs start (
            omega (
              arith,
              length-push_all p chosen.provider canonical [],
              length-canonical_fallbacks chosen.provider chosen.model,
            )),
      )
      (tt, omega arith)

-- The fallback chain of a decision has three entries at most, none of the selected provider or of one
-- that is ruled out, and no entry twice.
pub route-IsChain :
    (s : Surroundings) (p : RoutingPolicy) (d : RoutingDecision)
    → route s p ≡ ok d
    → IsChain p d.selected_provider d.fallback_chain × (length d.fallback_chain ≤ 3)
unfolding route decision
route-IsChain s p d e =
    let model = p.requested_model in
    let provider = provider_name s p model in
    let requested = s.get_capabilities model provider in
    let candidates = compatible_candidates s p model requested in
    let (chosen, _, made) = bind-ok (selection s p provider model requested candidates) _ d e in
    let (chain, short) = fallbacks-IsChain p chosen candidates in
    let same : decision p requested candidates chosen ≡ d = ground arith in
    subst
      (λ (x : RoutingDecision).
        IsChain p x.selected_provider x.fallback_chain × (length x.fallback_chain ≤ 3))
      same (chain, short)

in_chain-push :
    (x y : String) (p : RoutingPolicy) (selected : String) (entry : String × String)
    (chain : List (String × String))
    → in_chain x y chain ≡ true
    → in_chain x y (push p selected entry chain) ≡ true
unfolding push
in_chain-push x y p selected (provider, model) chain h =
    ground (arith, in_chain-append x y provider model chain)

in_chain-augment :
    (x y : String) (p : RoutingPolicy) (selected : String) (cs : List ModelCapabilities)
    (chain : List (String × String))
    → in_chain x y chain ≡ true
    → in_chain x y (augment p selected cs chain) ≡ true
unfolding augment
in_chain-augment x y p selected [] chain h = h
in_chain-augment x y p selected (c ∷ cs) chain h =
    let longer = push p selected (c.provider, c.model) chain in
    let there = in_chain-push x y p selected (c.provider, c.model) chain h in
    if_both (λ ch. in_chain x y ch ≡ true) (leb 3 (length longer)) _ _ there
      (in_chain-augment x y p selected cs longer there)

first_push :
    (p : RoutingPolicy)
    → mem_str "openai" p.disallowed_providers ≡ false
    → in_chain "openai" "gpt-4o" (push p "anthropic" ("openai", "gpt-4o") []) ≡ true
unfolding push is_fallback in_chain
first_push p allowed = ground arith

anthropic_falls_back :
    (p : RoutingPolicy) (model : String)
    → mem_str "openai" p.disallowed_providers ≡ false
    → in_chain "openai" "gpt-4o" (push_all p "anthropic" (canonical_fallbacks "anthropic" model) [])
      ≡ true
unfolding canonical_fallbacks push_all
anthropic_falls_back p model allowed =
    in_chain-push "openai" "gpt-4o" p "anthropic" ("gemini", "gemini-1.5-flash") _
      (first_push p allowed)

falls_back :
    (p : RoutingPolicy) (chosen : Selection) (cs : List ModelCapabilities)
    → p.allow_fallback ≡ true
    → chosen.provider ≡ "anthropic"
    → mem_str "openai" p.disallowed_providers ≡ false
    → in_chain "openai" "gpt-4o" (fallbacks p chosen cs) ≡ true
unfolding fallbacks
falls_back p chosen cs on named allowed =
    let start =
      in_chain-augment "openai" "gpt-4o" p "anthropic" cs _
        (anthropic_falls_back p chosen.model allowed) in
    simp (on, named) start

-- Where fallback is on and openai is not ruled out, a decision for anthropic falls back to openai's
-- gpt-4o, whatever the whitelist of the policy says.
pub whitelist_ignored :
    (s : Surroundings) (p : RoutingPolicy) (d : RoutingDecision)
    → route s p ≡ ok d
    → d.selected_provider ≡ "anthropic"
    → p.allow_fallback ≡ true
    → mem_str "openai" p.disallowed_providers ≡ false
    → in_chain "openai" "gpt-4o" d.fallback_chain ≡ true
unfolding route decision fallbacks
whitelist_ignored s p d e at_anthropic on allowed =
    let model = p.requested_model in
    let provider = provider_name s p model in
    let requested = s.get_capabilities model provider in
    let candidates = compatible_candidates s p model requested in
    let (chosen, _, made) = bind-ok (selection s p provider model requested candidates) _ d e in
    let named : "anthropic" ≡ chosen.provider = ground arith in
    let chain : fallbacks p chosen candidates ≡ d.fallback_chain = ground arith in
    subst (λ ch. in_chain "openai" "gpt-4o" ch ≡ true) chain
      (falls_back p chosen candidates on (sym named) allowed)
