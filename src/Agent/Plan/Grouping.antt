-- ===== src/Agent/Plan/Grouping.antt =====
-- The grouping of a plan into tiers ends, holds every step id exactly where it belongs, and respects
-- the dependencies.
use jake_ai.Prelude.{
  All, Bool, Bool-cases, Dict, List, Option, String, [], arith, erase, false, filter, inl, inr,
  insert, is_some, length, lookup, lookup-erase, lookup-insert, mem_str, none, not, refl, some,
  str_eq_refl, suc, sym, true, values, zero, ℕ, ◌&&◌, ◌++◌, ◌+◌, ◌<◌, ◌||◌, ◌∷◌, ◌≡◌, ◌≤◌, ◌⊎◌,
}
use jake_ai.Agent.Plan.{PlanStep, ids, deps_in, ExecutionPlan}
use jake_ai.Agent.Plan.Tiers.{by_id, pop_all, current_tier, tiers_from, get_independent_step_groups}

-- Every entry stands under the id of its step.
abbrev Keyed : Dict PlanStep → Type 0
Keyed [] = Unit
Keyed ((k, s) ∷ d) = (s.step_id ≡ k) × Keyed d

abbrev has_key : String → Dict PlanStep → Bool
has_key k d = is_some (lookup k d)

insert-Keyed : (s : PlanStep) (d : Dict PlanStep) → Keyed d → Keyed (insert s.step_id s d)
unfolding insert
insert-Keyed s [] h = (refl, tt)
insert-Keyed s ((k, t) ∷ d) h = ground (arith, insert-Keyed s d h.1)

by_id-Keyed : (d : Dict PlanStep) (steps : List PlanStep) → Keyed d → Keyed (by_id d steps)
unfolding by_id
by_id-Keyed d [] h = h
by_id-Keyed d (s ∷ steps) h = by_id-Keyed (insert s.step_id s d) steps (insert-Keyed s d h)

erase-Keyed : (k : String) (d : Dict PlanStep) → Keyed d → Keyed (erase k d)
unfolding erase
erase-Keyed k [] h = tt
erase-Keyed k ((j, t) ∷ d) h = ground (arith, erase-Keyed k d h.1)

pop_all-Keyed : (tier : List PlanStep) (d : Dict PlanStep) → Keyed d → Keyed (pop_all tier d)
unfolding pop_all
pop_all-Keyed [] d h = h
pop_all-Keyed (s ∷ tier) d h = pop_all-Keyed tier (erase s.step_id d) (erase-Keyed s.step_id d h)

length-erase-le : (k : String) (d : Dict PlanStep) → length (erase k d) ≤ length d
unfolding erase
length-erase-le k [] = omega arith
length-erase-le k ((j, t) ∷ d) = ground (arith, length-erase-le k d)

length-erase-lt :
    (k : String) (d : Dict PlanStep) → has_key k d ≡ true → length (erase k d) < length d
unfolding erase lookup
length-erase-lt k [] h = cc
length-erase-lt k ((j, t) ∷ d) h = ground (arith, length-erase-le k d, length-erase-lt k d)

length-pop_all-le : (tier : List PlanStep) (d : Dict PlanStep) → length (pop_all tier d) ≤ length d
unfolding pop_all
length-pop_all-le [] d = omega arith
length-pop_all-le (s ∷ tier) d =
    omega (arith, length-pop_all-le tier (erase s.step_id d), length-erase-le s.step_id d)

-- the ids of the values are the keys
mem-values : (k : String) (d : Dict PlanStep) → Keyed d → mem_str k (ids (values d)) ≡ has_key k d
unfolding lookup
mem-values k [] h = refl
mem-values k ((j, t) ∷ d) h = ground (arith, mem-values k d h.1)

mem-filter :
    (p : PlanStep → Bool) (k : String) (steps : List PlanStep)
    → mem_str k (ids (filter p steps)) ≡ true
    → mem_str k (ids steps) ≡ true
mem-filter p k [] h = h
mem-filter p k (s ∷ steps) h = ground (arith, mem-filter p k steps)

has_key-nil : (k : String) → has_key k [] ≡ false
unfolding lookup
has_key-nil k = refl

has_key-pop_all :
    (k : String) (tier : List PlanStep) (d : Dict PlanStep)
    → has_key k (pop_all tier d) ≡ (has_key k d && not (mem_str k (ids tier)))
unfolding pop_all
has_key-pop_all k [] d = ground arith
has_key-pop_all k (s ∷ tier) d =
    ground (arith, has_key-pop_all k tier (erase s.step_id d), lookup-erase s.step_id k d)

has_key-by_id :
    (k : String) (d : Dict PlanStep) (steps : List PlanStep)
    → has_key k (by_id d steps) ≡ (has_key k d || mem_str k (ids steps))
unfolding by_id
has_key-by_id k d [] = ground arith
has_key-by_id k d (s ∷ steps) =
    ground (arith, has_key-by_id k (insert s.step_id s d) steps, lookup-insert s.step_id k s d)

All-filter : (p : PlanStep → Bool) (steps : List PlanStep) → All (λ s. p s ≡ true) (filter p steps)
All-filter p [] = tt
All-filter p (s ∷ steps) = elim (Bool-cases (p s)) [
  | inl t ↦ rw t (t, All-filter p steps)
  | inr f ↦ rw f (All-filter p steps)
]

All-of_filter-nil :
    (p : PlanStep → Bool) (steps : List PlanStep)
    → filter p steps ≡ []
    → All (λ s. p s ≡ false) steps
All-of_filter-nil p [] h = tt
All-of_filter-nil p (s ∷ steps) h = elim (Bool-cases (p s)) [
  | inl t ↦ let h' : s ∷ filter p steps ≡ [] = rw t at h in cc
  | inr f ↦ (f, All-of_filter-nil p steps (rw f at h))
]

abbrev pub all_ids : List (List PlanStep) → List String
all_ids [] = []
all_ids (tier ∷ tiers) = ids tier ++ all_ids tiers

-- no id of the tier comes back later
abbrev pub IsNew : List PlanStep → List (List PlanStep) → Type 0
IsNew tier rest = (k : String) → mem_str k (ids tier) ≡ true → mem_str k (all_ids rest) ≡ false

-- Given the ids completed before, each tier holds only steps whose dependencies are completed by
-- then, and none of its ids comes back; but the last tier may hold what is left where no step left
-- can run.
abbrev pub IsGrouping : List String → List (List PlanStep) → Type 0
IsGrouping done [] = Unit
IsGrouping done (tier ∷ rest) =
    (All (λ s. deps_in done s ≡ true) tier × IsNew tier rest × IsGrouping (ids tier ++ done) rest)
    ⊎ ((rest ≡ []) × All (λ s. deps_in done s ≡ false) tier)

mem-append :
    (k : String) (xs ys : List String) → mem_str k (xs ++ ys) ≡ (mem_str k xs || mem_str k ys)
mem-append k [] ys = refl
mem-append k (x ∷ xs) ys = ground (arith, mem-append k xs ys)

-- What the loop gives from a state of its own.
abbrev IsResult : List String → Dict PlanStep → Option (List (List PlanStep)) → Type 0
IsResult done d none = ⊥
IsResult done d (some tiers) =
    ((k : String) → mem_str k (all_ids tiers) ≡ has_key k d) × IsGrouping done tiers

module _ (done : List String) (d : Dict PlanStep) (s : PlanStep) (tier : List PlanStep)
    (keyed : Keyed d) (e : current_tier done d ≡ s ∷ tier) where
  tier_key : (k : String) → mem_str k (ids (s ∷ tier)) ≡ true → has_key k d ≡ true
  tier_key k m = rw (← mem-values k d keyed) (mem-filter (deps_in done) k (values d) (rw e m))

  tier_shrinks : length (pop_all (s ∷ tier) d) < length d
  unfolding pop_all
  tier_shrinks = omega (
    arith,
    length-pop_all-le tier (erase s.step_id d),
    length-erase-lt s.step_id d (tier_key s.step_id (rw (str_eq_refl s.step_id))),
  )

  -- one more tier in front of what the loop gives for the rest
  tier_then_rest :
      (rest : Option (List (List PlanStep)))
      → IsResult (ids (s ∷ tier) ++ done) (pop_all (s ∷ tier) d) rest
      → IsResult done d (elim rest [ none ↦ none | some tiers ↦ some ((s ∷ tier) ∷ tiers) ])
  tier_then_rest none r = r
  tier_then_rest (some tiers) (covers, grouping) = (
    λ k. ground (
      arith,
      mem-append k (ids (s ∷ tier)) (all_ids tiers),
      covers k,
      has_key-pop_all k (s ∷ tier) d,
      tier_key k,
    ),
    inl (
      rw e at (All-filter (deps_in done) (values d)),
      (λ k m. ground (arith, covers k, has_key-pop_all k (s ∷ tier) d)),
      grouping,
    ),
  )

tiers_from-IsResult :
    (fuel : ℕ) (done : List String) (d : Dict PlanStep)
    → Keyed d
    → length d < fuel
    → IsResult done d (tiers_from fuel done d)
unfolding tiers_from
tiers_from-IsResult zero done d h lt = absurd (omega arith)
tiers_from-IsResult (suc fuel) done [] h lt = (λ k. sym (has_key-nil k), tt)
tiers_from-IsResult (suc fuel) done (e ∷ d) h lt =
    go (tiers_from-IsResult fuel) (current_tier done (e ∷ d)) refl
  where
    go :
        ((done : List String) (d : Dict PlanStep)
          → Keyed d
          → length d < fuel
          → IsResult done d (tiers_from fuel done d))
        → (tier : List PlanStep) → current_tier done (e ∷ d) ≡ tier
        → IsResult done (e ∷ d) (elim tier [
          | [] ↦ some (values (e ∷ d) ∷ [])
          | s ∷ rest ↦
              elim (tiers_from fuel (ids (s ∷ rest) ++ done) (pop_all (s ∷ rest) (e ∷ d))) [
                | none ↦ none
                | some tiers ↦ some ((s ∷ rest) ∷ tiers)
              ]
        ])
    go ih [] q = (
      λ k. ground (arith, mem-append k (ids (values (e ∷ d))) [], mem-values k (e ∷ d) h),
      inr (refl, All-of_filter-nil (deps_in done) (values (e ∷ d)) q),
    )
    go ih (s ∷ rest) q = tier_then_rest done (e ∷ d) s rest h q _ (
        ih (ids (s ∷ rest) ++ done) (pop_all (s ∷ rest) (e ∷ d))
          (pop_all-Keyed (s ∷ rest) (e ∷ d) h)
          (let small = tier_shrinks done (e ∷ d) s rest h q in omega arith))

-- Grouping a plan into tiers always ends. The tiers hold exactly the ids of the plan's steps, each
-- in one tier only; a step stands in a tier only when all its dependencies stand in earlier tiers,
-- except that the last tier holds whatever can never run, on a cycle or a missing dependency.
pub groups_correct :
    (plan : ExecutionPlan)
    → (tiers : List (List PlanStep)) × (get_independent_step_groups plan ≡ some tiers)
      × ((k : String) → mem_str k (all_ids tiers) ≡ mem_str k (ids plan.steps))
      × IsGrouping [] tiers
unfolding get_independent_step_groups
groups_correct plan = from_result _ refl (
    tiers_from-IsResult (length remaining + 1) [] remaining (by_id-Keyed [] plan.steps tt)
      (omega arith))
  where
    remaining : Dict PlanStep
    remaining = by_id [] plan.steps

    from_result :
        (r : Option (List (List PlanStep)))
        → tiers_from (length remaining + 1) [] remaining ≡ r
        → IsResult [] remaining r
        → (tiers : List (List PlanStep)) × (tiers_from (length remaining + 1) [] remaining
            ≡ some tiers)
          × ((k : String) → mem_str k (all_ids tiers) ≡ mem_str k (ids plan.steps))
          × IsGrouping [] tiers
    from_result none e r = absurd r
    from_result (some tiers) e (covers, grouping) = (
      tiers,
      e,
      (λ k. ground (arith, covers k, has_key-by_id k [] plan.steps, has_key-nil k)),
      grouping,
    )
