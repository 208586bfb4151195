-- ===== src/Agent/RunState/Steps.antt =====
-- agent/state/models.py: the dump of a `StepExecutionRecord` (`model_dump`) and its rehydration from a
-- dict (`StepExecutionRecord(**s)`), which validates each field and fills in the defaults. How a value
-- of another type is coerced to that of a field is up to pydantic: the fields of `Coercions`.
use jake_ai.Prelude.{
  Dict, Fields, List, Option, Result, String, Value, [], err, lookup, map, map_option, millis, none,
  null, num, obj, ok, refl, some, str, value_error, ℕ, ◌>>=◌, ◌∷◌, ◌≡◌,
}
use jake_ai.Prelude.Values
use jake_ai.Agent.RunState.{StepExecutionRecord}

pub record Coercions : Type 0 where
  -- to `int` with `ge=0`, `float`, `str` and `dict[str, Any]`
  pub to_int : Value → Option ℕ
  pub to_float : Value → Option ℕ
  pub to_text : Value → Option String
  pub to_dict : Value → Option (Dict Value)

-- a dict as a value
abbrev pub fields_of : Dict Value → Values.Fields
fields_of [] = Values.end
fields_of ((k, v) ∷ d) = Values.field k v (fields_of d)

-- A value of the type of a field is accepted as it is.
abbrev pub IsLawful : Coercions → Type 0
IsLawful c =
    ((n : ℕ) → c.to_int (num n) ≡ some n)
    × ((n : ℕ) → c.to_float (millis n) ≡ some n)
    × ((s : String) → c.to_text (str s) ≡ some s)
    × ((d : Dict Value) → c.to_dict (obj (fields_of d)) ≡ some d)

abbrev optional_str : Option String → Value
optional_str none = null
optional_str (some s) = str s

-- `model_dump`
unfoldable pub dump : StepExecutionRecord → Dict Value
dump s =
    ("step_number", num s.step_number)
    ∷ ("description", str s.description)
    ∷ ("action_type", str s.action_type)
    ∷ ("tool_name", optional_str s.tool_name)
    ∷ ("tool_args", obj (fields_of s.tool_args))
    ∷ ("observation", optional_str s.observation)
    ∷ ("status", str s.step_status)
    ∷ ("execution_time_ms", millis s.execution_time_ms)
    ∷ ("timestamp", millis s.timestamp)
    ∷ []

-- a field, `missing` where it is not given
abbrev pub validated : {A : Type 0} → (Value → Option A) → Result A → Option Value → Result A
validated coerce missing none = missing
validated coerce missing (some v) = elim (coerce v) [ none ↦ err value_error | some a ↦ ok a ]

-- `str | None`
abbrev pub to_optional_text : Coercions → Value → Option (Option String)
to_optional_text c Values.null = some none
to_optional_text c v = map_option (λ s. some s) (c.to_text v)

-- `now` is the default of `timestamp`
unfoldable pub rehydrate : Coercions → ℕ → Dict Value → Result StepExecutionRecord
rehydrate c now d = do
  step_number ← validated c.to_int (err value_error) (lookup "step_number" d)
  description ← validated c.to_text (ok "") (lookup "description" d)
  action_type ← validated c.to_text (err value_error) (lookup "action_type" d)
  tool_name ← validated (to_optional_text c) (ok none) (lookup "tool_name" d)
  tool_args ← validated c.to_dict (ok []) (lookup "tool_args" d)
  observation ← validated (to_optional_text c) (ok none) (lookup "observation" d)
  status ← validated c.to_text (ok "completed") (lookup "status" d)
  execution_time_ms ← validated c.to_float (ok 0) (lookup "execution_time_ms" d)
  timestamp ← validated c.to_float (ok now) (lookup "timestamp" d)
  ok (record {
    step_number = step_number;
    description = description;
    action_type = action_type;
    tool_name = tool_name;
    tool_args = tool_args;
    observation = observation;
    step_status = status;
    execution_time_ms = execution_time_ms;
    timestamp = timestamp;
  })

-- an entry of the steps of the adapter state: a dict, or a record as it is
pub data StepItem : Type 0 where
  dumped : Dict Value → StepItem
  kept : StepExecutionRecord → StepItem

unfoldable pub rehydrate_all : Coercions → ℕ → List StepItem → Result (List StepExecutionRecord)
rehydrate_all c now [] = ok []
rehydrate_all c now (dumped d ∷ items) = do
  s ← rehydrate c now d
  rest ← rehydrate_all c now items
  ok (s ∷ rest)
rehydrate_all c now (kept s ∷ items) = rehydrate_all c now items >>= λ rest. ok (s ∷ rest)

optional_lem :
    (c : Coercions) (missing : Result (Option String)) (o : Option String)
    → IsLawful c
    → validated (to_optional_text c) missing (some (optional_str o)) ≡ ok o
optional_lem c missing none h = refl
optional_lem c missing (some s) h = rw (h.2 s, validated) refl

rehydrate-dump :
    (c : Coercions) (now : ℕ) (s : StepExecutionRecord)
    → IsLawful c
    → rehydrate c now (dump s) ≡ ok s
unfolding rehydrate dump lookup
rehydrate-dump c now s h =
    rw
      (
        h.0 s.step_number,
        h.2 s.description,
        h.2 s.action_type,
        optional_lem c (ok none) s.tool_name h,
        h.3 s.tool_args,
        optional_lem c (ok none) s.observation h,
        h.2 s.step_status,
        h.1 s.execution_time_ms,
        h.1 s.timestamp,
      )
      refl

-- Steps come back from their dumps as they were.
pub rehydrate_all-dump :
    (c : Coercions) (now : ℕ) (steps : List StepExecutionRecord)
    → IsLawful c
    → rehydrate_all c now (map (λ s. dumped (dump s)) steps) ≡ ok steps
unfolding rehydrate_all
rehydrate_all-dump c now [] h = refl
rehydrate_all-dump c now (s ∷ steps) h =
    rw (rehydrate-dump c now s h, rehydrate_all-dump c now steps h) refl
