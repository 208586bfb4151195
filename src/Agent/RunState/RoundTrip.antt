-- ===== src/Agent/RunState/RoundTrip.antt =====
-- What of a run survives the way through the LangGraph adapter state and back.
use jake_ai.Prelude.{
  Bool-cases, Option, String, eq_iff, if◌then◌else◌, inl, inr, lookup, none, ok, or_else, refl,
  some, str, str_eq, ℕ, ◌||◌, ◌≡◌,
}
use jake_ai.Agent.RunStatus.{RunStatus, created, executing, running, rejected, failed, status_value}
use jake_ai.Agent.RunState.Writes.{IsTracked}
use jake_ai.Agent.RunState.{RunState}
use jake_ai.Agent.RunState.Steps.{Coercions, IsLawful, rehydrate_all-dump}
use jake_ai.Agent.RunState.Bridge.{
  is_verdict, restored_status, value_or, status_map, to_agent_state, from_agent_state, text_or,
  restored_error, restored_run,
}

-- CREATED and EXECUTING are not told from RUNNING by the adapter.
abbrev pub adapter_status : RunStatus → RunStatus
adapter_status created = running
adapter_status executing = running
adapter_status s = s

-- The status that a run has after the round trip.
abbrev pub bridged_status : RunState → RunStatus
bridged_status r =
    if is_verdict "REJECTED" r.verification_verdict
    then rejected
    else if is_verdict "FAILED" r.verification_verdict
    then failed
    else adapter_status r.status

phase_status :
    (s : RunStatus) → or_else (lookup (status_value s) status_map) running ≡ adapter_status s
unfolding lookup status_value
phase_status created = refl
phase_status _ = refl

rejected_verdict :
    (v : Option String) → is_verdict "REJECTED" (some (text_or v "PASS")) ≡ is_verdict "REJECTED" v
unfolding is_verdict text_or
rejected_verdict none = refl
rejected_verdict (some s) = elim (Bool-cases (str_eq s "")) [
  | inl e ↦ rw ((eq_iff s "").0 e)
  | inr f ↦ rw f
]

failed_verdict :
    (v : Option String) → is_verdict "FAILED" (some (text_or v "PASS")) ≡ is_verdict "FAILED" v
unfolding is_verdict text_or
failed_verdict none = refl
failed_verdict (some s) = elim (Bool-cases (str_eq s "")) [
  | inl e ↦ rw ((eq_iff s "").0 e)
  | inr f ↦ rw f
]

restored-bridged : (r : RunState) → restored_status (to_agent_state r) ≡ bridged_status r
unfolding restored_status to_agent_state
restored-bridged r = rw (
  rejected_verdict r.verification_verdict,
  failed_verdict r.verification_verdict,
  phase_status r.status,
)

-- the text of `error`, where the notes are a text
bridged_error :
    (r : RunState) (note : String)
    → value_or "critique_notes" (str "") r.metadata ≡ str note
    → (e : Option String) × (restored_error (to_agent_state r) ≡ ok e)
unfolding restored_error to_agent_state
bridged_error r note h =
    elim (Bool-cases (
      is_verdict "FAILED" (to_agent_state r).verification_verdict
      || is_verdict "REJECTED" (to_agent_state r).verification_verdict)) [
        | inl t ↦ (some note, rw (t, h))
        | inr f ↦ (none, rw f)
      ]

-- A run that goes through the adapter state and back, where a value of the type of a field is validated
-- as it is, keeps its identity, its owner, its authorization context, its messages, tool records and
-- revision count, its steps as they are rehydrated from their dumps, and its status up to
-- what the verdict and the adapter make of it; its iteration count becomes the revision count, no
-- approval gate is left pending, and its status is tracked again. It fails only on notes that are no
-- text.
pub bridge_round_trip :
    (c : Coercions) (r : RunState) (note : String) (now : ℕ)
    → IsLawful c
    → value_or "critique_notes" (str "") r.metadata ≡ str note
    → (r' : RunState) × (from_agent_state c (to_agent_state r) r.task_id r.run_id now ≡ ok r')
      × (r'.status ≡ bridged_status r)
      × (r'.tenant_id ≡ r.tenant_id)
      × (r'.user_id ≡ r.user_id)
      × (r'.roles ≡ r.roles)
      × (r'.permissions ≡ r.permissions)
      × (r'.messages ≡ r.messages)
      × (r'.tool_calls ≡ r.tool_calls)
      × (r'.tool_results ≡ r.tool_results)
      × (r'.steps ≡ r.steps)
      × (r'.revision_count ≡ r.revision_count)
      × (r'.current_iteration ≡ r.revision_count)
      × (r'.pending_approval_id ≡ none)
      × IsTracked r'
unfolding from_agent_state restored_run to_agent_state
bridge_round_trip c r note now lawful h =
    let (e, raised) = bridged_error r note h in
    (
      restored_run (to_agent_state r) r.task_id r.run_id now r.steps e,
      rw (rehydrate_all-dump c now r.steps lawful, raised) refl,
      restored-bridged r,
      refl,
      refl,
      refl,
      refl,
      refl,
      refl,
      refl,
      refl,
      refl,
      refl,
      refl,
      refl,
    )
