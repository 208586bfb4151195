-- ===== src/Agent/Tools/Execution.antt =====
-- agent/tools/registry.py: `ToolRegistry`. The texts of errors and the times are left out. A call of
-- `authorize_bound_effect` has the moment and the answer of the authority as arguments.
use jake_ai.Prelude.{
  Bool, Dict, Exc, List, Option, Result, String, [], all, codes, erase, err, false, filter,
  if◌then◌else◌, insert, is_some, length, lookup, ltb, map, mem_str, negsuc, none, not, ok, pos,
  some, str_eq, true, values, ℤ, ◌&&◌, ◌*◌, ◌+◌, ◌∷◌,
}
use jake_ai.Core.Authority.{AuthorityLease, Moment, authorize_bound_effect}
use jake_ai.Core.Authority.Introspection.{Response}
use jake_ai.Core.Json.{Json, array, bool, float, int, object, text}
use jake_ai.Agent.Tools.{
  InputSchema, PropertySpec, ToolMetadata, ToolResult, ToolRiskLevel, read_only,
}
use jake_ai.Agent.Tools.Policy.{Scanner, evaluate}

-- the context of a call, as far as it is read
pub record Context : Type 0 where
  pub tenant_id : String
  pub user_id : Option String
  pub permissions : List String

-- how `tool.execute` ends
pub data Outcome : Type 0 where
  finished : ToolResult → Outcome
  timed_out : Outcome
  raised : Exc → Outcome

pub record Tool : Type 0 where
  pub metadata : ToolMetadata
  pub run : Dict Json → Context → Outcome

unfoldable pub register : Tool → Dict Tool → Dict Tool
register tool tools = insert tool.metadata.name tool tools

unfoldable pub unregister : String → Dict Tool → Dict Tool
unregister name tools = erase name tools

unfoldable pub discover : Scanner → List String → Dict Tool → List ToolMetadata
unfolding evaluate
discover s permissions tools =
    filter (λ (meta : ToolMetadata). (evaluate s meta [] permissions).allowed)
      (map (λ (t : Tool). t.metadata) (values tools))

abbrev pub lt_int : ℤ → ℤ → Bool
lt_int (pos a) (pos b) = ltb a b
lt_int (pos a) (negsuc b) = false
lt_int (negsuc a) (pos b) = true
lt_int (negsuc a) (negsuc b) = ltb b a

-- a whole number in the thousandths that a `float` counts
abbrev pub thousandths : ℤ → ℤ
thousandths (pos n) = pos (n * 1000)
thousandths (negsuc n) = negsuc (n * 1000 + 999)

unfoldable pub is_in_range : (ℤ → ℤ) → PropertySpec → ℤ → Bool
is_in_range scale spec v =
    elim spec.minimum [ none ↦ true | some m ↦ not (lt_int v (scale m)) ]
    && elim spec.maximum [ none ↦ true | some m ↦ not (lt_int (scale m) v) ]

abbrev pub is_long_enough : PropertySpec → String → Bool
is_long_enough spec s = elim spec.min_length [
  | none ↦ true
  | some n ↦ not (ltb (length (codes s)) n)
]

abbrev pub is_string : PropertySpec → Json → Bool
is_string spec (text s) = is_long_enough spec s
is_string spec _ = false

abbrev pub is_integer : PropertySpec → Json → Bool
is_integer spec (int v) = is_in_range (λ m. m) spec v
is_integer spec _ = false

abbrev pub is_number : PropertySpec → Json → Bool
is_number spec (int v) = is_in_range (λ m. m) spec v
is_number spec (float v) = is_in_range thousandths spec v
is_number spec _ = false

abbrev pub is_boolean : Json → Bool
is_boolean (bool _) = true
is_boolean _ = false

abbrev pub is_array : Json → Bool
is_array (array _) = true
is_array _ = false

abbrev pub is_object : Json → Bool
is_object (object _) = true
is_object _ = false

abbrev pub has_type : String → PropertySpec → Json → Bool
has_type t spec v =
    if str_eq t "string"
    then is_string spec v
    else if str_eq t "integer"
    then is_integer spec v
    else if str_eq t "number"
    then is_number spec v
    else if str_eq t "boolean"
    then is_boolean v
    else if str_eq t "array"
    then is_array v
    else if str_eq t "object"
    then is_object v
    else true

-- one pass of the loop over the arguments
unfoldable pub fits_property : InputSchema → String × Json → Bool
unfolding is_in_range
fits_property schema (name, v) = elim (lookup name schema.properties) [
  | none ↦ schema.additional_properties
  | some spec ↦ elim spec.type_name [ none ↦ true | some t ↦ has_type t spec v ]
]

-- `validate`, up to the text of the complaint
unfoldable pub validate : String → Dict Json → Dict Tool → Bool
unfolding fits_property
validate tool_name arguments tools = elim (lookup tool_name tools) [
  | none ↦ false
  | some tool ↦
      all (λ f. is_some (lookup f arguments)) tool.metadata.input_schema.required
      && all (fits_property tool.metadata.input_schema) arguments
]

abbrev pub failure : ToolRiskLevel → ToolResult
failure risk = record { success = false; output = none; failed = true; result_risk = risk }

abbrev pub settle : ToolRiskLevel → Outcome → ToolResult
settle risk (finished r) = r
settle risk timed_out = failure risk
settle risk (raised e) = failure risk

-- `execute` from the policy on
unfoldable pub run_checked : Scanner → Dict Tool → String → Tool → Dict Json → Context → ToolResult
run_checked s tools tool_name tool arguments ctx =
    if not (evaluate s tool.metadata arguments ctx.permissions).allowed
    then failure tool.metadata.risk_level
    else if not (validate tool_name arguments tools)
    then failure tool.metadata.risk_level
    else settle tool.metadata.risk_level (tool.run arguments ctx)

-- the context that a lease gives
abbrev pub under : AuthorityLease → Context
under l = record {
  tenant_id = l.claims.tid;
  user_id = some l.claims.sub;
  permissions = l.claims.perms;
}

-- what the two authorizations of a call meet
pub record Site : Type 0 where
  pub environment : String
  pub first : Moment
  pub first_answer : Option Response
  pub second : Moment
  pub second_answer : Option Response

abbrev pub executes : List String
executes = "agent:execute" ∷ []

-- under a lease, the tenant of the lease is authorized once more
unfoldable pub execute_leased :
    Site
    → Scanner
    → Dict Tool
    → String
    → Tool
    → Dict Json
    → AuthorityLease
    → Option AuthorityLease
    → Result ToolResult × Option AuthorityLease
unfolding run_checked
execute_leased site s tools tool_name tool arguments l current =
    let (second, current') =
      authorize_bound_effect site.second site.second_answer site.environment l.claims.tid executes
        current in
    elim second [
      | err e ↦ (err e, current')
      | ok _ ↦
          if not (mem_str tool_name ("calculator" ∷ "system_time" ∷ []))
          then (ok (failure read_only), current')
          else (ok (run_checked s tools tool_name tool arguments (under l)), current')
    ]

unfoldable pub execute :
    Site
    → Scanner
    → String
    → Dict Json
    → Context
    → Option AuthorityLease
    → Dict Tool
    → Result ToolResult × Option AuthorityLease
unfolding run_checked execute_leased
execute site s tool_name arguments ctx current tools = elim (lookup tool_name tools) [
  | none ↦ (ok (failure read_only), current)
  | some tool ↦
      let (first, current') =
        authorize_bound_effect site.first site.first_answer site.environment ctx.tenant_id executes
          current in
      elim first [
        | err e ↦ (err e, current')
        | ok _ ↦ elim current [
          | none ↦ (ok (run_checked s tools tool_name tool arguments ctx), current')
          | some l ↦ execute_leased site s tools tool_name tool arguments l current'
        ]
      ]
]
