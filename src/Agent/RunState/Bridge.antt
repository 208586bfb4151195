-- ===== src/Agent/RunState/Bridge.antt =====
-- agent/state/models.py: `to_agent_state` and `from_agent_state`, the projection between a run and
-- the LangGraph adapter state. `AgentState` is the mapping that the one writes and the other reads; its
-- keys may be missing: each is an optional field. A note that is no text fails the validation of
-- `RunState.error`, a `ValueError`.
use jake_ai.Prelude.{
  Bool, Dict, List, Option, Result, String, Value, [], arr, err, false, if◌then◌else◌, lookup, map,
  millis, none, null, obj, ok, or_else, some, str, str_eq, value_error, ℕ, ◌>>=◌, ◌||◌, ◌∷◌,
}
use jake_ai.Prelude.Values
use jake_ai.Agent.RunStatus.{
  RunStatus, planning, ready, running, paused_approval, waiting_approval, verifying, replanning,
  completed, failed, cancelled, rejected, timeout, status_value,
}
use jake_ai.Agent.RunState.{RunState, StepExecutionRecord, init_status_tracking}
use jake_ai.Agent.RunState.Steps.{Coercions, StepItem, dumped, dump, rehydrate_all}

pub record AgentState : Type 0 where
  pub prompt : Option String
  pub tenant_id : Option String
  pub user_id : Option String
  pub roles : Option (List String)
  pub permissions : Option (List String)
  pub conversation_id : Option String
  pub correlation_id : Option String
  pub obo_token : Option Value
  pub raw_token : Option Value
  pub next_agent : Option String
  pub current_agent : Option String
  pub workflow_phase : Option String
  pub messages : Option (List String)
  pub tool_calls : Option (List (Dict Value))
  pub tool_results : Option (List (Dict Value))
  pub steps : Option (List StepItem)
  pub financial_analysis : Option Value
  pub retrieved_chunks : Option Value
  pub groundedness_score : Option Value
  pub verification_verdict : Option String
  pub critique_notes : Option Value
  pub revision_count : Option ℕ
  pub final_response : Option String
  pub mascot_state : Option Value
  pub citations : Option Value
  pub execution_plan : Option Value

-- `{}` and `[]`
abbrev empty_dict : Value
empty_dict = obj Values.end

abbrev empty_list : Value
empty_list = arr Values.nil

-- `d.get(key, default)`
unfoldable pub value_or : String → Value → Dict Value → Value
value_or key default d = or_else (lookup key d) default

-- `value or default` for an optional text
unfoldable pub text_or : Option String → String → String
text_or none default = default
text_or (some s) default = if str_eq s "" then default else s

unfoldable pub to_agent_state : RunState → AgentState
unfolding value_or text_or
to_agent_state r = record {
  prompt = some (text_or r.prompt "");
  tenant_id = some r.tenant_id;
  user_id = some r.user_id;
  roles = some r.roles;
  permissions = some r.permissions;
  conversation_id = some r.task_id;
  correlation_id = some (text_or r.correlation_id "");
  obo_token = some (value_or "obo_token" (str "") r.metadata);
  raw_token = some (value_or "raw_token" (str "") r.metadata);
  next_agent = some (text_or r.next_agent "supervisor");
  current_agent = some (text_or r.current_agent "supervisor");
  workflow_phase = some (status_value r.status);
  messages = some r.messages;
  tool_calls = some r.tool_calls;
  tool_results = some r.tool_results;
  steps = some (map (λ s. dumped (dump s)) r.steps);
  financial_analysis = some (value_or "financial_analysis" empty_dict r.context);
  retrieved_chunks = some (value_or "retrieved_chunks" empty_list r.context);
  groundedness_score = some (value_or "groundedness_score" (millis 1000) r.context);
  verification_verdict = some (text_or r.verification_verdict "PASS");
  critique_notes = some (value_or "critique_notes" (str "") r.metadata);
  revision_count = some r.revision_count;
  final_response = some (text_or r.final_output "");
  mascot_state = some (value_or "mascot_state" (str "idle") r.metadata);
  citations = some (value_or "citations" empty_list r.metadata);
  execution_plan = r.plan;
}

-- `status_map`
abbrev pub status_map : Dict RunStatus
status_map =
    ("completed", completed)
    ∷ ("verification_passed", completed)
    ∷ ("verification_failed", failed)
    ∷ ("failed", failed)
    ∷ ("paused_approval", paused_approval)
    ∷ ("waiting_approval", waiting_approval)
    ∷ ("planning", planning)
    ∷ ("ready", ready)
    ∷ ("verifying", verifying)
    ∷ ("replanning", replanning)
    ∷ ("critique", running)
    ∷ ("executing", running)
    ∷ ("running", running)
    ∷ ("cancelled", cancelled)
    ∷ ("rejected", rejected)
    ∷ ("timeout", timeout)
    ∷ []

-- `verdict == text`
unfoldable pub is_verdict : String → Option String → Bool
is_verdict v none = false
is_verdict v (some s) = str_eq s v

-- the status that the phase and the verdict stand for
unfoldable pub restored_status : AgentState → RunStatus
unfolding is_verdict lookup
restored_status a =
    let phase = or_else (lookup (or_else a.workflow_phase "running") status_map) running in
    if is_verdict "REJECTED" a.verification_verdict
    then rejected
    else if is_verdict "FAILED" a.verification_verdict
    then failed
    else phase

-- the text that the field `error` is given
unfoldable pub note_text : Option Value → Result (Option String)
note_text none = ok none
note_text (some Values.null) = ok none
note_text (some (str s)) = ok (some s)
note_text (some _) = err value_error

unfoldable pub restored_error : AgentState → Result (Option String)
unfolding is_verdict note_text
restored_error a =
    if is_verdict "FAILED" a.verification_verdict || is_verdict "REJECTED" a.verification_verdict
    then note_text a.critique_notes
    else ok none

-- `steps` are the rehydrated ones, `error` is the text found by `restored_error`, and `now` is the
-- default of `created_at`
unfoldable pub restored_run :
    AgentState → String → String → ℕ → List StepExecutionRecord → Option String → RunState
unfolding restored_status init_status_tracking
restored_run a task_id run_id now steps error = init_status_tracking (record {
  run_id = run_id;
  task_id = task_id;
  tenant_id = or_else a.tenant_id "default";
  user_id = or_else a.user_id "default";
  status = restored_status a;
  roles = or_else a.roles [];
  permissions = or_else a.permissions [];
  correlation_id = a.correlation_id;
  current_iteration = or_else a.revision_count 0;
  current_step = str (or_else a.current_agent "supervisor");
  max_iterations = 10;
  steps = steps;
  current_agent = a.current_agent;
  next_agent = a.next_agent;
  prompt = a.prompt;
  messages = or_else a.messages [];
  context =
      ("financial_analysis", or_else a.financial_analysis empty_dict)
      ∷ ("retrieved_chunks", or_else a.retrieved_chunks empty_list)
      ∷ ("groundedness_score", or_else a.groundedness_score (millis 1000))
      ∷ [];
  tool_calls = or_else a.tool_calls [];
  tool_results = or_else a.tool_results [];
  revision_count = or_else a.revision_count 0;
  verification_verdict = a.verification_verdict;
  approval_state = none;
  pending_approval_id = none;
  checkpoint_metadata = [];
  plan = none;
  final_output = a.final_response;
  error = error;
  termination_reason = a.verification_verdict;
  tokens_consumed = 0;
  cost_usd = 0;
  created_at = now;
  completed_at = none;
  metadata =
      ("obo_token", or_else a.obo_token (str ""))
      ∷ ("mascot_state", or_else a.mascot_state (str "idle"))
      ∷ ("citations", or_else a.citations empty_list)
      ∷ ("critique_notes", or_else a.critique_notes (str ""))
      ∷ [];
  enforced_status = none;
})

unfoldable pub from_agent_state : Coercions → AgentState → String → String → ℕ → Result RunState
unfolding restored_error restored_run
from_agent_state c a task_id run_id now = do
  steps ← rehydrate_all c now (or_else a.steps [])
  error ← restored_error a
  ok (restored_run a task_id run_id now steps error)
