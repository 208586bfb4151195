-- ===== src/Agent/Recovery/Loop.antt =====
-- agent/execution/engine.py, the failure branch of `_run_execution_loop`: a failed step is marked,
-- the recovery engine decides, and the step goes back to pending or the run ends. Events and the
-- checkpoint that is saved at the end are not modelled.
use native.Mathlib.Nat.{suc-mul}
use jake_ai.Prelude.{
  Bool, List, Option, Option-cases, Result, String, [], arith, err, false, if◌then◌else◌, inl, inr,
  length, none, ok, refl, some, str_eq, suc, sym, true, ℕ, ◌*◌, ◌+◌, ◌-◌, ◌<◌, ◌>>=◌, ◌∷◌, ◌≡◌, ◌≤◌,
}
use jake_ai.Agent.Plan
use jake_ai.Agent.Plan.{PlanStep, StepResult, mark}
use jake_ai.Agent.Recovery.{
  RecoveryLimits, RecoveryAction, retry, switch_model, switch_agent, evaluate_step_failure,
  RecoveryDecision, default_limits,
}
use jake_ai.Agent.Registry.{Agents}

pub data Recovery : Type 0 where
  -- the step is pending again
  resumed : PlanStep → Recovery
  -- the run is FAILED
  terminated : Recovery

-- the writes to the step by the action
unfoldable pub apply_action : RecoveryAction → Option String → PlanStep → Recovery
unfolding mark
apply_action retry alternative s = resumed (
    mark Plan.pending none none none
      (record s { retries_exhausted = s.retries_exhausted + 1; status = Plan.pending }))
apply_action switch_agent alternative s = resumed (
    mark Plan.pending none none none (record s {
      assigned_agent = alternative;
      agent_switches = s.agent_switches + 1;
      retries_exhausted = 0;
      status = Plan.pending;
    }))
-- no decision names an alternative model
apply_action switch_model alternative s = resumed (
    mark Plan.pending none none none (record s {
      selected_model = some "gemini-1.5-pro";
      retries_exhausted = s.retries_exhausted + 1;
      status = Plan.pending;
    }))
apply_action _ alternative s = terminated

-- `step_res.error or "Unknown failure"`
abbrev failure_text : Option String → String
failure_text none = "Unknown failure"
failure_text (some e) = if str_eq e "" then "Unknown failure" else e

unfoldable pub handle_failure :
    RecoveryLimits → Agents → StepResult → ℕ → PlanStep → Result Recovery
unfolding apply_action
handle_failure limits agents res elapsed step =
    let failed = mark Plan.failed none res.error (some res) step in
    do
      d ←
          evaluate_step_failure limits agents failed (failure_text res.error)
            failed.retries_exhausted elapsed
      ok (apply_action d.action d.alternative_agent failed)

-- A failure of the step: its result, and the time since the run began.
abbrev pub Failure : Type 0
Failure = StepResult × ℕ

-- the step after a failure, if the run goes on
abbrev pub next_step : Result Recovery → Option PlanStep
next_step (ok (resumed s)) = some s
next_step _ = none

-- Every one of the failures was followed by a new attempt.
unfoldable pub survives : RecoveryLimits → Agents → List Failure → PlanStep → Bool
survives limits agents [] step = true
survives limits agents ((res, elapsed) ∷ failures) step =
    elim (next_step (handle_failure limits agents res elapsed step)) [
      | none ↦ false
      | some s ↦ survives limits agents failures s
    ]

-- How many more failures a step can survive.
abbrev pub budget : RecoveryLimits → PlanStep → ℕ
budget limits s =
    (limits.max_agent_switches - s.agent_switches) * (limits.max_step_retries + 1)
    + (limits.max_step_retries - s.retries_exhausted)

one_switch_less :
    (limit used per : ℕ) → used < limit → (limit - (used + 1)) * per + per ≡ (limit - used) * per
one_switch_less limit used per h =
    let e : limit - used ≡ suc (limit - (used + 1)) = omega arith in
    rw e (sym (suc-mul (limit - (used + 1)) per))

-- What a decision on a step leads to.
next_by_decision :
    (limits : RecoveryLimits) (agents : Agents) (message : String) (elapsed : ℕ) (step s : PlanStep)
    (d : RecoveryDecision)
    → evaluate_step_failure limits agents step message step.retries_exhausted elapsed ≡ ok d
    → next_step (ok (apply_action d.action d.alternative_agent step)) ≡ some s
    → budget limits s < budget limits step
unfolding apply_action evaluate_step_failure
next_by_decision limits agents message elapsed step s d e h = ground (
  arith,
  one_switch_less limits.max_agent_switches step.agent_switches (limits.max_step_retries + 1),
)

budget_step :
    (limits : RecoveryLimits) (agents : Agents) (res : StepResult) (elapsed : ℕ) (step s : PlanStep)
    → next_step (handle_failure limits agents res elapsed step) ≡ some s
    → budget limits s < budget limits step
unfolding handle_failure mark
budget_step limits agents res elapsed step s h =
    by_result (evaluate_step_failure limits agents marked text retries elapsed) refl h
  where
    marked : PlanStep
    marked = mark Plan.failed none res.error (some res) step

    text : String
    text = failure_text res.error

    retries : ℕ
    retries = marked.retries_exhausted

    by_result :
        (r : Result RecoveryDecision)
        → evaluate_step_failure limits agents marked text retries elapsed ≡ r
        → next_step (r >>= λ d. ok (apply_action d.action d.alternative_agent marked)) ≡ some s
        → budget limits s < budget limits step
    by_result (ok d) e h = next_by_decision limits agents text elapsed marked s d e h
    by_result (err x) e h = cc

-- Self-healing is bounded: whatever the failures of a step, their messages and their times, and
-- whatever agents are registered, the number that are followed by a new attempt is at most what is
-- left of its retries and agent switches.
pub recoveries_bounded :
    (limits : RecoveryLimits) (agents : Agents) (failures : List Failure) (step : PlanStep)
    → survives limits agents failures step ≡ true
    → length failures ≤ budget limits step
unfolding survives
recoveries_bounded limits agents [] step h = omega arith
recoveries_bounded limits agents ((res, elapsed) ∷ failures) step h =
    elim (Option-cases (next_step (handle_failure limits agents res elapsed step))) [
      | inl e ↦ let h' : false ≡ true = rw (e, survives) at h in cc
      | inr (s, e) ↦ omega (
        arith,
        budget_step limits agents res elapsed step s e,
        recoveries_bounded limits agents failures s (rw (e, survives) at h),
      )
    ]

-- A step that has not failed yet, under the default limits, gets eleven recoveries at most.
pub default_recoveries_bounded :
    (agents : Agents) (failures : List Failure) (step : PlanStep)
    → step.retries_exhausted ≡ 0
    → step.agent_switches ≡ 0
    → survives default_limits agents failures step ≡ true
    → length failures ≤ 11
default_recoveries_bounded agents failures step r s h =
    omega (arith, recoveries_bounded default_limits agents failures step h)
