-- ===== src/Agent/Recovery/Decisions.antt =====
-- What the recovery engine decides, on every branch.
use jake_ai.Prelude.{
  Bool-cases, Result, String, arith, err, get_elem?, inl, inr, leb, length, ok, some, value_error,
  ℕ, ◌%◌, ◌+◌, ◌<◌, ◌↔◌, ◌≡◌, ◌≢◌, ◌≤◌, ◌⊎◌,
}
use jake_ai.Agent.Plan.{PlanStep}
use jake_ai.Agent.Recovery.{
  RecoveryLimits, RecoveryDecision, VerificationVerdict, RecoveryAction, no_action, retry, replan,
  switch_model, switch_agent, terminate_failed, terminate_rejected, needs_revision, pass, rejected,
  failed, evaluate_step_failure, evaluate_verification_result, other_agents, classify,
  non_retryable, congestion,
}
use jake_ai.Agent.Registry.{Agents}

-- Within the time and retry limits.
abbrev pub HasBudget : RecoveryLimits → ℕ → ℕ → Type 0
HasBudget limits retries elapsed =
    (elapsed < limits.max_execution_time_ms) × (retries < limits.max_step_retries)

-- What must hold of a decision about a failed step.
abbrev pub IsJustified :
    RecoveryLimits → Agents → PlanStep → String → ℕ → ℕ → RecoveryAction → RecoveryDecision → Type 0
IsJustified limits agents step message retries elapsed retry d =
    HasBudget limits retries elapsed
    × (d.attempt ≡ retries + 1)
    × (classify message ≢ non_retryable)
IsJustified limits agents step message retries elapsed switch_model d =
    HasBudget limits retries elapsed × (d.attempt ≡ retries + 1) × (classify message ≡ congestion)
IsJustified limits agents step message retries elapsed switch_agent d =
    (elapsed < limits.max_execution_time_ms)
    × (limits.max_step_retries ≤ retries)
    × (step.agent_switches < limits.max_agent_switches)
    × (d.alternative_agent
        ≡ get_elem? (other_agents step agents)
            (step.agent_switches % length (other_agents step agents)))
    × (0 < length (other_agents step agents))
IsJustified limits agents step message retries elapsed terminate_failed d =
    (limits.max_execution_time_ms ≤ elapsed)
    ⊎ (limits.max_step_retries ≤ retries)
    ⊎ (classify message ≡ non_retryable)
IsJustified limits agents step message retries elapsed _ d = ⊥

abbrev pub Justified :
    RecoveryLimits → Agents → PlanStep → String → ℕ → ℕ → Result RecoveryDecision → Type 0
Justified limits agents step message retries elapsed (ok d) =
    IsJustified limits agents step message retries elapsed d.action d
    × (d.step_id ≡ some step.step_id)
    × (1 ≤ d.attempt)
Justified limits agents step message retries elapsed (err e) = ⊥

-- With room for at least one retry, every failure of a step gets a decision, and it is justified:
-- a retry or a change of model only within the time and retry limits and never for an error that
-- cannot be retried; a change of agent only once the retries are used up and while switches are
-- left, to one of the other eligible agents; and an end only at the time limit, without retries
-- left, or for an error that cannot be retried.
pub step_decision-Justified :
    (limits : RecoveryLimits) (agents : Agents) (step : PlanStep) (message : String)
    (retries elapsed : ℕ)
    → 0 < limits.max_step_retries
    → Justified limits agents step message retries elapsed
        (evaluate_step_failure limits agents step message retries elapsed)
unfolding evaluate_step_failure
step_decision-Justified limits agents step message retries elapsed h =
    elim (Bool-cases (leb limits.max_execution_time_ms elapsed)) [
      | inl late ↦ rw late (ground arith)
      | inr early ↦ rw early (elim (Bool-cases (leb limits.max_step_retries retries)) [
        | inl used ↦ rw used (ground arith)
        | inr left ↦ rw left (ground arith)
      ])
    ]

-- What must hold of a decision about a verification: a replan only for a revision that was asked for, within the time
-- and replan limits; a rejection always ends the run rejected; a pass asks for nothing.
abbrev pub VerdictJustified :
    RecoveryLimits → VerificationVerdict → ℕ → ℕ → Result RecoveryDecision → Type 0
VerdictJustified limits verdict replans elapsed (ok d) =
    ((d.action ≡ no_action) ↔ (verdict ≡ pass))
    × ((d.action ≡ terminate_rejected) ↔ (verdict ≡ rejected))
    × ((d.action ≡ replan) ↔ (
        (verdict ≡ needs_revision)
        × (elapsed < limits.max_execution_time_ms)
        × (replans < limits.max_replans)))
    × (d.action ≡ replan → d.attempt ≤ limits.max_replans)
VerdictJustified limits verdict replans elapsed (err e) = ⊥

-- With room for at least one replan, every verification gets a decision, and it is justified: nothing
-- to do exactly for a pass, a rejection exactly for a rejection, and a replan exactly for a revision
-- that was asked for within the time and replan limits, its attempt numbered within the limit.
verdict_decision-VerdictJustified :
    (limits : RecoveryLimits) (verdict : VerificationVerdict) (replans elapsed : ℕ)
    → 0 < limits.max_replans
    → VerdictJustified limits verdict replans elapsed
        (evaluate_verification_result limits verdict replans elapsed)
unfolding evaluate_verification_result
verdict_decision-VerdictJustified limits pass replans elapsed h = ground arith
verdict_decision-VerdictJustified limits rejected replans elapsed h = ground arith
verdict_decision-VerdictJustified limits needs_revision replans elapsed h = ground arith
verdict_decision-VerdictJustified limits failed replans elapsed h = ground arith

-- Limits with no replans at all are accepted, and then every evaluation of a verification raises,
-- whatever the verdict: a pass too.
zero_replans_raises :
    (limits : RecoveryLimits) (verdict : VerificationVerdict) (replans elapsed : ℕ)
    → limits.max_replans ≡ 0
    → evaluate_verification_result limits verdict replans elapsed ≡ err value_error
unfolding evaluate_verification_result
zero_replans_raises limits pass replans elapsed h = ground arith
zero_replans_raises limits _ replans elapsed h = ground arith
