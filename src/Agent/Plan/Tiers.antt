-- ===== src/Agent/Plan/Tiers.antt =====
-- agent/domain/contracts.py: `get_independent_step_groups`, the grouping of a plan into tiers that
-- can run in parallel. `remaining` is a dict by step id: a later step of the same id replaces an
-- earlier one. The loop takes fuel, one round for each remaining step and one more.
use jake_ai.Prelude.{
  Dict, List, Option, String, [], erase, filter, insert, length, none, some, suc, values, zero, ℕ,
  ◌++◌, ◌+◌, ◌∷◌,
}
use jake_ai.Agent.Plan.{PlanStep, ExecutionPlan, deps_in, ids}

-- `{s.step_id: s for s in self.steps}`
unfoldable pub by_id : Dict PlanStep → List PlanStep → Dict PlanStep
by_id d [] = d
by_id d (s ∷ steps) = by_id (insert s.step_id s d) steps

-- `remaining.pop(s.step_id, None)` for every step of a tier
unfoldable pub pop_all : List PlanStep → Dict PlanStep → Dict PlanStep
pop_all [] d = d
pop_all (s ∷ tier) d = pop_all tier (erase s.step_id d)

-- the steps of one round whose dependencies are all completed
abbrev pub current_tier : List String → Dict PlanStep → List PlanStep
current_tier done d = filter (deps_in done) (values d)

-- `while remaining`; `none` means that the fuel ran out
unfoldable pub tiers_from : ℕ → List String → Dict PlanStep → Option (List (List PlanStep))
unfolding pop_all
tiers_from zero done d = none
tiers_from (suc fuel) done [] = some []
tiers_from (suc fuel) done (e ∷ d) = elim (current_tier done (e ∷ d)) [
  | [] ↦ some (values (e ∷ d) ∷ [])
  | s ∷ tier ↦ elim (tiers_from fuel (ids (s ∷ tier) ++ done) (pop_all (s ∷ tier) (e ∷ d))) [
    | none ↦ none
    | some rest ↦ some ((s ∷ tier) ∷ rest)
  ]
]

unfoldable pub get_independent_step_groups : ExecutionPlan → Option (List (List PlanStep))
unfolding by_id tiers_from
get_independent_step_groups plan =
    let remaining = by_id [] plan.steps in tiers_from (length remaining + 1) [] remaining
