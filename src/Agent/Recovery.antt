-- ===== src/Agent/Recovery.antt =====
-- agent/recovery/recovery.py: `BoundedRecoveryEngine`. Times are in milliseconds. A
-- `RecoveryDecision` is validated when it is built: `attempt` and `max_attempts` are at least 1, or
-- a `ValidationError` is raised, which is a `ValueError`. The reasons are not modelled.
pub mod Decisions
pub mod Loop
mod Tests
use jake_ai.Prelude.{
  Bool, List, Option, Result, String, [], codes, contains_any, err, filter, get_elem?,
  if◌then◌else◌, leb, length, lower, ltb, max, none, not, ok, some, str_eq, true, value_error, ℕ,
  ◌%◌, ◌+◌, ◌||◌, ◌∷◌,
}
use jake_ai.Agent.Plan.{PlanStep}
use jake_ai.Agent.Registry.{AgentMetadata, Agents, find_eligible}

pub data VerificationVerdict : Type 0 where
  pass needs_revision failed rejected : VerificationVerdict

pub data RecoveryAction : Type 0 where
  no_action retry replan switch_model switch_agent terminate_failed : RecoveryAction
  terminate_rejected : RecoveryAction

pub record RecoveryLimits : Type 0 where
  pub max_step_retries : ℕ
  pub max_agent_switches : ℕ
  pub max_replans : ℕ
  pub max_total_iterations : ℕ
  pub max_execution_time_ms : ℕ

abbrev pub default_limits : RecoveryLimits
default_limits = record {
  max_step_retries = 3;
  max_agent_switches = 2;
  max_replans = 2;
  max_total_iterations = 10;
  max_execution_time_ms = 60000;
}

pub record RecoveryDecision : Type 0 where
  pub action : RecoveryAction
  pub step_id : Option String
  pub attempt : ℕ
  pub max_attempts : ℕ
  pub alternative_agent : Option String

-- `RecoveryDecision(...)`, with the bounds of its fields
unfoldable pub decide :
    RecoveryAction → Option String → ℕ → ℕ → Option String → Result RecoveryDecision
decide action step_id attempt max_attempts alternative =
    if ltb attempt 1 || ltb max_attempts 1
    then err value_error
    else ok (record {
      action = action;
      step_id = step_id;
      attempt = attempt;
      max_attempts = max_attempts;
      alternative_agent = alternative;
    })

abbrev pub non_retryable_markers : List String
non_retryable_markers =
    "authentication" ∷ "unauthorized" ∷ "forbidden" ∷ "permission denied" ∷ "access denied"
    ∷ "http 401" ∷ "http 403" ∷ "http_401" ∷ "http_403" ∷ "(401)" ∷ "(403)" ∷ "api key" ∷ "api_key"
    ∷ "missing_credentials" ∷ "quota" ∷ "billing" ∷ "insufficient credit" ∷ "policy" ∷ "safety"
    ∷ "moderation" ∷ "content_filter" ∷ "content violation" ∷ "guardrail" ∷ "context length"
    ∷ "context_limit" ∷ "maximum context" ∷ "token limit" ∷ "too many tokens" ∷ "prompt is too long"
    ∷ "approval gate" ∷ "requires human approval" ∷ "unknown tool" ∷ "not registered"
    ∷ "tool not found" ∷ "unregistered tool" ∷ []

abbrev pub congestion_markers : List String
congestion_markers = "rate limit" ∷ "429" ∷ "overloaded" ∷ []

abbrev pub transient_markers : List String
transient_markers = "timeout" ∷ "connection" ∷ []

pub data ErrorClass : Type 0 where
  non_retryable congestion transient other : ErrorClass

-- the tests on `error_message.lower()`, in their order
unfoldable pub classify : String → ErrorClass
unfolding lower contains_any
classify message =
    let text = lower (codes message) in
    if contains_any non_retryable_markers text
    then non_retryable
    else if contains_any congestion_markers text
    then congestion
    else if contains_any transient_markers text
    then transient
    else other

-- `a.agent_id != step.assigned_agent`
abbrev pub is_other : Option String → AgentMetadata → Bool
is_other none a = true
is_other (some assigned) a = not (str_eq a.agent_id assigned)

abbrev pub agent_ids : List AgentMetadata → List String
agent_ids [] = []
agent_ids (a ∷ agents) = a.agent_id ∷ agent_ids agents

-- the eligible agents other than the assigned one
unfoldable pub other_agents : PlanStep → Agents → List String
other_agents step agents = agent_ids (
    filter (is_other step.assigned_agent)
      (find_eligible step.required_capabilities step.required_tools none agents))

-- the step's retries are used up
unfoldable pub exhausted : RecoveryLimits → Agents → PlanStep → ℕ → Result RecoveryDecision
unfolding decide other_agents
exhausted limits agents step retries =
    if leb limits.max_agent_switches step.agent_switches
    then decide terminate_failed (some step.step_id) retries limits.max_step_retries none
    else elim (other_agents step agents) [
      | [] ↦ decide terminate_failed (some step.step_id) retries limits.max_step_retries none
      | a ∷ others ↦
          decide switch_agent (some step.step_id) retries limits.max_step_retries
            (get_elem? (a ∷ others) (step.agent_switches % length (a ∷ others)))
    ]

-- the decision by the class of the error
unfoldable pub by_class : RecoveryLimits → PlanStep → ℕ → ErrorClass → Result RecoveryDecision
unfolding decide
by_class limits step retries non_retryable =
    decide terminate_failed (some step.step_id) (max 1 retries) limits.max_step_retries none
by_class limits step retries congestion =
    decide switch_model (some step.step_id) (retries + 1) limits.max_step_retries none
by_class limits step retries transient =
    decide retry (some step.step_id) (retries + 1) limits.max_step_retries none
by_class limits step retries other =
    decide retry (some step.step_id) (retries + 1) limits.max_step_retries none

unfoldable pub evaluate_step_failure :
    RecoveryLimits → Agents → PlanStep → String → ℕ → ℕ → Result RecoveryDecision
unfolding decide exhausted by_class
evaluate_step_failure limits agents step message retries elapsed =
    if leb limits.max_execution_time_ms elapsed
    then decide terminate_failed (some step.step_id) (max 1 retries) limits.max_step_retries none
    else if leb limits.max_step_retries retries
    then exhausted limits agents step retries
    else by_class limits step retries (classify message)

unfoldable pub evaluate_verification_result :
    RecoveryLimits → VerificationVerdict → ℕ → ℕ → Result RecoveryDecision
unfolding decide
evaluate_verification_result limits pass replans elapsed =
    decide no_action none (max 1 replans) limits.max_replans none
evaluate_verification_result limits rejected replans elapsed =
    decide terminate_rejected none (max 1 replans) limits.max_replans none
evaluate_verification_result limits verdict replans elapsed =
    if leb limits.max_execution_time_ms elapsed
    then decide terminate_failed none (max 1 replans) limits.max_replans none
    else if leb limits.max_replans replans
    then decide terminate_failed none replans limits.max_replans none
    else elim verdict [
      | needs_revision ↦ decide replan none (replans + 1) limits.max_replans none
      | _ ↦ decide terminate_failed none (max 1 replans) limits.max_replans none
    ]
