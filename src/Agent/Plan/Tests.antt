-- ===== src/Agent/Plan/Tests.antt =====
-- A plan of two steps, the second after the first.
use jake_ai.Prelude.{List, String, [], arith, mem_str, some, true, ◌∷◌, ◌≡◌}
use jake_ai.Agent.Plan.{PlanStep, ExecutionPlan, completed, pending, ids, is_complete}
use jake_ai.Agent.Plan.Tiers.{get_independent_step_groups}
use jake_ai.Agent.Plan.Grouping.{groups_correct, all_ids, IsGrouping}
use jake_ai.Agent.Plan.Sample.{sample_step, sample_plan}

abbrev fetch : PlanStep
fetch = sample_step "fetch" [] pending

abbrev report : PlanStep
report = sample_step "report" ("fetch" ∷ []) pending

abbrev plan : ExecutionPlan
plan = sample_plan (report ∷ fetch ∷ [])

groups_correct_example :
    (tiers : List (List PlanStep)) × (get_independent_step_groups plan ≡ some tiers)
    × ((k : String) → mem_str k (all_ids tiers) ≡ mem_str k (ids plan.steps))
    × IsGrouping [] tiers
groups_correct_example = groups_correct plan

abbrev finished : ExecutionPlan
finished = sample_plan (sample_step "fetch" [] completed ∷ [])

finished_complete : is_complete finished ≡ true
unfolding is_complete
finished_complete = ground arith
