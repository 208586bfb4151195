-- ===== src/Agent/Verifier/Verdicts.antt =====
-- What a verdict says of an execution, and how often an execution is revised.
use jake_ai.Prelude.{
  All, List, String, [], any, arith, eq_iff, false, none, some, suc, true, ℕ, ◌+◌, ◌-◌, ◌∷◌, ◌≡◌,
  ◌≤◌, ◌⊎◌,
}
use jake_ai.Agent.Recovery.{pass, needs_revision}
use jake_ai.Agent.Verifier.{
  Origin, Evaluation, Execution, is_breach, has_breach, has_math_error, first_financials,
  is_grounded, conclude, verify_execution,
}

-- It names no tenant, or the tenant.
abbrev pub IsOwn : String → Origin → Type 0
IsOwn tenant_id none = Unit
IsOwn tenant_id (some tenant) = (tenant ≡ "") ⊎ (tenant ≡ tenant_id)

no_breach :
    (tenant_id : String) (origins : List Origin)
    → any (is_breach tenant_id) origins ≡ false
    → All (IsOwn tenant_id) origins
unfolding is_breach
no_breach tenant_id [] h = tt
no_breach tenant_id (none ∷ origins) h = (tt, no_breach tenant_id origins (ground arith))
no_breach tenant_id (some tenant ∷ origins) h = (
  ground (arith, eq_iff tenant "", eq_iff tenant tenant_id),
  no_breach tenant_id origins (ground arith),
)

-- An execution passes only if every tool call and every chunk that names a tenant names its own, the
-- figures that it reports add up, the answer leaks nothing, its score is 80 hundredths at least, and it
-- is free of hallucinated figures.
pub pass_is_clean :
    (max_revisions : ℕ) (x : Execution) (e : Evaluation)
    → (verify_execution max_revisions x e).verdict ≡ pass
    → All (IsOwn x.tenant_id) x.tool_calls
      × All (IsOwn x.tenant_id) x.retrieved_chunks
      × (has_math_error (first_financials x.financial_data x.step_financials) ≡ false)
      × (e.data_leakage_detected ≡ false)
      × (80 ≤ e.faithfulness_score)
      × (e.anti_hallucination_passed ≡ true)
unfolding verify_execution conclude has_breach is_grounded
pass_is_clean max_revisions x e h = (
  no_breach x.tenant_id x.tool_calls (ground arith),
  no_breach x.tenant_id x.retrieved_chunks (ground arith),
  ground arith,
  ground arith,
  ground arith,
  ground arith,
)

-- how many of a row of evaluations ask for a revision, each revision counted before the next
unfoldable revisions : ℕ → Execution → List Evaluation → ℕ
revisions max_revisions x [] = 0
revisions max_revisions x (e ∷ es) =
    let again = revisions max_revisions (record x { revision_count = x.revision_count + 1 }) es in
    elim (verify_execution max_revisions x e).verdict [ needs_revision ↦ suc again | _ ↦ 0 ]

-- Whatever the evaluations of an execution say, it is revised no more often than revisions are left.
revisions_bounded :
    (max_revisions : ℕ) (es : List Evaluation) (x : Execution)
    → revisions max_revisions x es ≤ max_revisions - x.revision_count
unfolding revisions verify_execution conclude
revisions_bounded max_revisions [] x = omega arith
revisions_bounded max_revisions (e ∷ es) x =
    ground (
      arith,
      revisions_bounded max_revisions es (record x { revision_count = x.revision_count + 1 }),
    )
