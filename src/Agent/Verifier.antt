-- ===== src/Agent/Verifier.antt =====
-- agent/verification/verifier.py: the verdict of `CanonicalVerifier.verify_execution`. Amounts of money
-- are whole cents, to which the source rounds them; a score is in hundredths. The text that grounds the
-- answer, and the evaluation of the answer against it, are an argument: `evaluation` is what the
-- evaluator returns. Reasons and evidence are left out.
pub mod Verdicts
mod Tests
use jake_ai.Prelude.{
  Bool, List, Option, String, [], any, false, if◌then◌else◌, leb, ltb, neg_part, none, not,
  pos_part, some, str_eq, true, ℕ, ℤ, ◌&&◌, ◌+◌, ◌==◌, ◌||◌, ◌∷◌,
}
use jake_ai.Agent.Recovery.{VerificationVerdict, pass, needs_revision, failed, rejected}

-- `tenant_id` of a tool call or of a retrieved chunk
abbrev pub Origin : Type 0
Origin = Option String

-- the figures of a financial analysis
pub record Financials : Type 0 where
  pub revenue : ℤ
  pub operating_expenses : ℤ
  pub operating_income : ℤ

pub record Evaluation : Type 0 where
  pub data_leakage_detected : Bool
  pub faithfulness_score : ℕ
  pub anti_hallucination_passed : Bool

pub record VerificationResult : Type 0 where
  pub verdict : VerificationVerdict
  pub recoverability : Bool
  pub groundedness_score : ℕ

-- `tenant and tenant != tenant_id`
unfoldable pub is_breach : String → Origin → Bool
is_breach tenant_id none = false
is_breach tenant_id (some tenant) = not (str_eq tenant "") && not (str_eq tenant tenant_id)

unfoldable pub has_breach : String → List Origin → List Origin → Bool
has_breach tenant_id tool_calls retrieved_chunks =
    any (is_breach tenant_id) tool_calls || any (is_breach tenant_id) retrieved_chunks

-- `a - b == c`, written with sums of natural numbers
unfoldable pub is_difference : ℤ → ℤ → ℤ → Bool
is_difference a b c = pos_part a + neg_part b + neg_part c == pos_part b + neg_part a + pos_part c

-- the figures that are given, else those of the first output that has an analysis, which may be empty
unfoldable pub first_financials :
    Option Financials → List (Option (Option Financials)) → Option Financials
first_financials (some f) outputs = some f
first_financials none [] = none
first_financials none (some found ∷ outputs) = found
first_financials none (none ∷ outputs) = first_financials none outputs

unfoldable pub has_math_error : Option Financials → Bool
has_math_error none = false
has_math_error (some f) = not (is_difference f.revenue f.operating_expenses f.operating_income)

unfoldable pub is_grounded : Evaluation → Bool
is_grounded e = leb 80 e.faithfulness_score && e.anti_hallucination_passed

-- what is verified of an execution
pub record Execution : Type 0 where
  pub tenant_id : String
  pub step_financials : List (Option (Option Financials))
  pub tool_calls : List Origin
  pub retrieved_chunks : List Origin
  pub financial_data : Option Financials
  pub revision_count : ℕ

abbrev rejection : VerificationResult
rejection = record { verdict = rejected; recoverability = false; groundedness_score = 0 }

-- the failures of mathematics and of grounding, with the revisions that are left
unfoldable pub conclude : ℕ → Execution → Evaluation → VerificationResult
conclude max_revisions x e =
    if has_math_error (first_financials x.financial_data x.step_financials) || not (is_grounded e)
    then (if ltb x.revision_count max_revisions
        then record {
          verdict = needs_revision;
          recoverability = true;
          groundedness_score = e.faithfulness_score;
        }
        else record {
          verdict = failed;
          recoverability = false;
          groundedness_score = e.faithfulness_score;
        })
    else record { verdict = pass; recoverability = true; groundedness_score = e.faithfulness_score }

-- The answer is evaluated after the check of the tenants, and only then.
unfoldable pub verify_execution : ℕ → Execution → Evaluation → VerificationResult
verify_execution max_revisions x evaluation =
    if has_breach x.tenant_id x.tool_calls x.retrieved_chunks
    then rejection
    else if evaluation.data_leakage_detected
    then rejection
    else conclude max_revisions x evaluation
