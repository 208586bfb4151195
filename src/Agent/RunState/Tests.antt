-- ===== src/Agent/RunState/Tests.antt =====
-- Status writes and the bridge on a run.
use jake_ai.Prelude.Values
use jake_ai.Agent.RunState.Steps.{Coercions, IsLawful, fields_of, rehydrate}
use jake_ai.Prelude.{
  Dict, Fields, List, Option, String, Value, [], ap, err, lookup, millis, none, num, obj, ok, refl,
  some, str, true, value_error, ℕ, ◌*◌, ◌∷◌, ◌≡◌,
}
use jake_ai.Agent.RunStatus.{running, completed, is_terminal}
use jake_ai.Agent.RunStatus.Graph.{Trail}
use jake_ai.Agent.RunState.{RunState}
use jake_ai.Agent.RunState.Sample.{sample_run}
use jake_ai.Agent.RunState.Writes.{
  Write, assign, transition, run_writes, entered, IsTracked, history-Trail,
  terminal_status_immutable,
}
use jake_ai.Agent.RunState.Bridge.{to_agent_state, from_agent_state, value_or}
use jake_ai.Agent.RunState.RoundTrip.{bridge_round_trip, bridged_status}

abbrev busy : RunState
busy = sample_run "run_1" "task_1" running

abbrev done : RunState
done = sample_run "run_2" "task_1" completed

abbrev client : List Write
client = assign running ∷ transition completed (some "done") 200 ∷ assign running ∷ []

history-Trail_example :
    Trail running (entered client busy) (run_writes client busy).status
    × IsTracked (run_writes client busy)
history-Trail_example = history-Trail client busy refl

done_ended : is_terminal done.status ≡ true
unfolding is_terminal
done_ended = refl

terminal_status_immutable_example : (run_writes client done).status ≡ completed
terminal_status_immutable_example = terminal_status_immutable client done refl done_ended

-- one step, of a tool that got a dict
abbrev stepped : RunState
stepped = record busy {
  steps =
      record {
        step_number = 1;
        description = "balance";
        action_type = "tool_call";
        tool_name = some "get_account_balance";
        tool_args = ("account", str "a1") ∷ [];
        observation = none;
        step_status = "completed";
        execution_time_ms = 1500;
        timestamp = 300000;
      }
      ∷ [];
}

-- the entries of a dict
abbrev members_of : Values.Fields → Dict Value
members_of Values.end = []
members_of (Values.field k v fs) = (k, v) ∷ members_of fs

abbrev as_int : Value → Option ℕ
as_int (num n) = some n
as_int _ = none

abbrev as_float : Value → Option ℕ
as_float (millis n) = some n
as_float (num n) = some (n * 1000)
as_float _ = none

abbrev as_text : Value → Option String
as_text (str s) = some s
as_text _ = none

abbrev as_dict : Value → Option (Dict Value)
as_dict (obj fs) = some (members_of fs)
as_dict _ = none

abbrev strict : Coercions
strict = record { to_int = as_int; to_float = as_float; to_text = as_text; to_dict = as_dict }

members_of_lem : (d : Dict Value) → members_of (fields_of d) ≡ d
members_of_lem [] = refl
members_of_lem ((k, v) ∷ d) = ap (λ rest. (k, v) ∷ rest) (members_of_lem d)

strict-IsLawful : IsLawful strict
strict-IsLawful = (λ n. refl, λ n. refl, λ s. refl, λ d. ap (λ e. some e) (members_of_lem d))

-- a step without its number is refused
numberless : rehydrate strict 500 (("action_type", str "finish") ∷ []) ≡ err value_error
unfolding rehydrate lookup
numberless = refl

stepped_notes : value_or "critique_notes" (str "") stepped.metadata ≡ str ""
unfolding value_or lookup
stepped_notes = refl

bridge_round_trip_example :
    (r' : RunState) × (from_agent_state strict (to_agent_state stepped) "task_1" "run_1" 500
      ≡ ok r')
    × (r'.status ≡ bridged_status stepped)
    × (r'.tenant_id ≡ "acme")
    × (r'.user_id ≡ "ann")
    × (r'.roles ≡ stepped.roles)
    × (r'.permissions ≡ [])
    × (r'.messages ≡ stepped.messages)
    × (r'.tool_calls ≡ [])
    × (r'.tool_results ≡ [])
    × (r'.steps ≡ stepped.steps)
    × (r'.revision_count ≡ 1)
    × (r'.current_iteration ≡ 1)
    × (r'.pending_approval_id ≡ none)
    × IsTracked r'
bridge_round_trip_example = bridge_round_trip strict stepped "" 500 strict-IsLawful stepped_notes
