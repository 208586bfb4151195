-- ===== src/Agent/Verifier/Tests.antt =====
-- A grounded report of a profit.
use jake_ai.Prelude.{All, [], false, negsuc, none, pos, refl, some, true, ◌∷◌, ◌≡◌, ◌≤◌}
use jake_ai.Agent.Verifier.{
  Evaluation, Execution, has_math_error, first_financials, verify_execution, conclude, has_breach,
  is_grounded, is_breach, is_difference, Financials,
}
use jake_ai.Agent.Verifier.Verdicts.{pass_is_clean, IsOwn}

abbrev loss : Financials
loss = record { revenue = pos 900; operating_expenses = pos 1000; operating_income = negsuc 99 }

abbrev report : Execution
report = record {
  tenant_id = "acme";
  step_financials = none ∷ some (some loss) ∷ [];
  tool_calls = some "acme" ∷ none ∷ [];
  retrieved_chunks = some "" ∷ [];
  financial_data = none;
  revision_count = 0;
}

abbrev grounded : Evaluation
grounded = record {
  data_leakage_detected = false;
  faithfulness_score = 92;
  anti_hallucination_passed = true;
}

pass_is_clean_example :
    All (IsOwn "acme") report.tool_calls
    × All (IsOwn "acme") report.retrieved_chunks
    × (has_math_error (first_financials none report.step_financials) ≡ false)
    × (false ≡ false)
    × (80 ≤ 92)
    × (true ≡ true)
unfolding verify_execution conclude has_breach is_grounded is_breach has_math_error first_financials
    is_difference
pass_is_clean_example = pass_is_clean 2 report grounded refl
