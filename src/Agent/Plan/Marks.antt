-- ===== src/Agent/Plan/Marks.antt =====
-- Marking one step of a plan changes that step only.
use jake_ai.Prelude.{
  List, Option, Option-cases, String, [], all, any, ap, arith, eq_iff, false, if◌then◌else◌, inl,
  inr, map_option, none, refl, some, str_eq, true, ℕ, ◌∙◌, ◌∷◌, ◌≡◌,
}
use jake_ai.Agent.Plan.{
  PlanStep, StepResult, StepStatus, ExecutionPlan, find, get_step, ids, mark, update_first,
  mark_step_status, is_complete, has_failures, is_done, is_failed,
}

find-update_first :
    (k j : String) (f : PlanStep → PlanStep) (steps : List PlanStep)
    → ((s : PlanStep) → (f s).step_id ≡ s.step_id)
    → find j (update_first k f steps)
      ≡ (if str_eq k j then map_option f (find j steps) else find j steps)
unfolding find update_first
find-update_first k j f [] h = ground arith
find-update_first k j f (s ∷ steps) h = ground (
  arith,
  find-update_first k j f steps h,
  h s,
  eq_iff k j,
  eq_iff s.step_id k,
  eq_iff s.step_id j,
)

ids-update_first :
    (k : String) (f : PlanStep → PlanStep) (steps : List PlanStep)
    → ((s : PlanStep) → (f s).step_id ≡ s.step_id)
    → ids (update_first k f steps) ≡ ids steps
unfolding update_first
ids-update_first k f [] h = refl
ids-update_first k f (s ∷ steps) h = ground (arith, ids-update_first k f steps h, h s)

mark-step_id :
    (status : StepStatus) (observation error : Option String) (result : Option StepResult)
    (s : PlanStep)
    → (mark status observation error result s).step_id ≡ s.step_id
unfolding mark
mark-step_id status observation error result s = refl

module _ (k : String) (status : StepStatus) (observation error : Option String)
    (result : Option StepResult) (now : ℕ) (plan : ExecutionPlan) where
  mark_missing :
      get_step k plan ≡ none → mark_step_status k status observation error result now plan ≡ plan
  unfolding mark_step_status
  mark_missing h = ground arith

  mark_found :
      {s : PlanStep}
      → get_step k plan ≡ some s
      → (mark_step_status k status observation error result now plan).steps
        ≡ update_first k (mark status observation error result) plan.steps
  unfolding mark_step_status
  mark_found h = ground arith

  by_missing :
      (j : String)
      → get_step k plan ≡ none
      → get_step j (mark_step_status k status observation error result now plan) ≡ (
          if str_eq k j
          then map_option (mark status observation error result) (get_step j plan)
          else get_step j plan)
  by_missing j h = ground (arith, mark_missing h, eq_iff k j)

  by_found :
      (j : String) {s : PlanStep}
      → get_step k plan ≡ some s
      → get_step j (mark_step_status k status observation error result now plan) ≡ (
          if str_eq k j
          then map_option (mark status observation error result) (get_step j plan)
          else get_step j plan)
  unfolding get_step
  by_found j h = rw (mark_found h) (
      find-update_first k j (mark status observation error result) plan.steps
        (mark-step_id status observation error result))

  -- After a mark, the step that is looked up under the marked id is the old one marked, every other
  -- id is looked up as before, and the plan has the same ids in the same order. Marking an id that
  -- the plan lacks changes nothing.
  pub mark_step_status_lem :
      (j : String)
      → (get_step j (mark_step_status k status observation error result now plan) ≡ (
          if str_eq k j
          then map_option (mark status observation error result) (get_step j plan)
          else get_step j plan))
        × (ids (mark_step_status k status observation error result now plan).steps ≡ ids plan.steps)
        × (get_step k plan ≡ none
            → mark_step_status k status observation error result now plan ≡ plan)
  mark_step_status_lem j = elim (Option-cases (get_step k plan)) [
    | inl e ↦
        (by_missing j e, ap (λ (p : ExecutionPlan). ids p.steps) (mark_missing e), mark_missing)
    | inr (s, e) ↦ (
      by_found j e,
      ap ids (mark_found e)
          ∙ ids-update_first k _ plan.steps (mark-step_id status observation error result),
      mark_missing,
    )
  ]

all_done_none_failed :
    (steps : List PlanStep) → all is_done steps ≡ true → any is_failed steps ≡ false
all_done_none_failed [] h = refl
all_done_none_failed (s ∷ steps) h = ground (arith, all_done_none_failed steps)

-- A plan that is complete has no failed step.
complete_no_failures : (plan : ExecutionPlan) → is_complete plan ≡ true → has_failures plan ≡ false
unfolding is_complete has_failures
complete_no_failures plan h = ground (arith, all_done_none_failed plan.steps)
