-- ===== src/Finops/Budget/Tests.antt =====
-- A tenant that spends a small budget.
use jake_ai.Prelude.{List, [], arith, lookup, none, pos, refl, some, true, ◌+◌, ◌↔◌, ◌∷◌, ◌≡◌, ◌≤◌}
use jake_ai.Finops.Budget.{
  Budgets, QuotaReservation, get_tokens_used, get_dollars_spent, get_token_quota, get_dollar_budget,
  reserve_budget, finalize_reservation, check_budget, usage_key,
}
use jake_ai.Finops.Budget.Status.{is_suspended, set_budget, suspended_yet_admitted}
use jake_ai.Finops.Budget.Reservations.{
  Request, IsWithin, reserve_all, reserve_all-IsWithin, finalize_once,
}
use jake_ai.Finops.Budget.Settlement.{Account, Matches, Step, Trail, usage_is_settled_and_held}

abbrev start : Budgets
start = record {
  token_limits = ("acme", 100) ∷ [];
  dollar_limits = ("acme", 5000) ∷ [];
  warning_thresholds = [];
  token_usage = [];
  dollar_spent = [];
  tokens_saved = [];
  finalized = [];
}

abbrev requests : List Request
requests = ("a", pos 60, pos 1000) ∷ ("b", pos 50, pos 10) ∷ ("c", pos 40, pos 10) ∷ []

start-IsWithin : IsWithin "acme" "2026-07" start
unfolding get_tokens_used get_dollars_spent get_token_quota get_dollar_budget lookup
start-IsWithin = (ground arith, (λ limit h. ground arith))

reserve_all-IsWithin_example :
    IsWithin "acme" "2026-07" (reserve_all "acme" "2026-07" requests start).1
    × (get_tokens_used "acme" "2026-07" (reserve_all "acme" "2026-07" requests start).1
        ≡ get_tokens_used "acme" "2026-07" start + (reserve_all "acme" "2026-07" requests start).0)
reserve_all-IsWithin_example = reserve_all-IsWithin "acme" "2026-07" requests start start-IsWithin

abbrev held : QuotaReservation
held = record {
  tenant_id = "acme";
  period = "2026-07";
  reserved_tokens = 60;
  reserved_cost = 1000;
  reservation_id = "a";
}

finalize_once_example :
    (finalize_reservation "2026-08" held
      (pos 9)
      (pos 9)
      (finalize_reservation "2026-07" held (pos 20) (pos 400) start).1).1
    ≡ (finalize_reservation "2026-07" held (pos 20) (pos 400) start).1
finalize_once_example =
    finalize_once "2026-07" "2026-08" held (pos 20) (pos 400) (pos 9) (pos 9) start refl refl

abbrev all_spent : Budgets
all_spent = record start { dollar_spent = ("acme:2026-07", 5000) ∷ [] }

suspended_yet_admitted_example :
    ((is_suspended "acme" "2026-07" all_spent ≡ true)
      × ((check_budget "2026-07" "acme" (pos 100) (pos 0) all_spent).0 ≡ true))
    ↔ ((get_tokens_used "acme" "2026-07" all_spent + 100 ≤ get_token_quota "acme" all_spent)
        × (get_dollar_budget "acme" all_spent
            ≡ some (get_dollars_spent "acme" "2026-07" all_spent)))
suspended_yet_admitted_example =
    suspended_yet_admitted "acme" "2026-07" 100 all_spent (ground arith)

abbrev raised : Budgets
raised = (set_budget "2026-07" "acme" (some 200) none (some 9000) start).1

abbrev reserved : Budgets
reserved = (reserve_budget "a" "2026-07" "acme" (pos 60) (pos 1000) start).1

abbrev settled : Budgets
settled = (finalize_reservation "2026-07" held (pos 20) (pos 400) reserved).1

abbrev opening : Account
opening = record { settled_tokens = 0; settled_cost = 0; held = [] }

abbrev holding : Account
holding = record { settled_tokens = 0; settled_cost = 0; held = held ∷ [] }

abbrev closing : Account
closing = record { settled_tokens = 20; settled_cost = 400; held = [] }

start-Matches : Matches "acme" "2026-07" start opening
unfolding get_tokens_used get_dollars_spent lookup
start-Matches = (refl, refl, _)

first-Step : Step "acme" "2026-07" start opening reserved holding
unfolding reserve_budget get_tokens_used get_dollars_spent get_token_quota get_dollar_budget lookup
    usage_key
first-Step = Step.reserve "a" (pos 60) (pos 1000) start opening refl _

second-Step : Step "acme" "2026-07" reserved holding settled closing
second-Step = Step.finalize "2026-07" held 20 400 reserved holding [] [] refl refl refl

usage_is_settled_and_held_example : Matches "acme" "2026-07" settled closing
usage_is_settled_and_held_example =
    usage_is_settled_and_held "acme" "2026-07"
      (Trail.step first-Step (Trail.step second-Step (Trail.here settled closing))) start-Matches
