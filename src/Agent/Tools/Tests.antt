-- ===== src/Agent/Tools/Tests.antt =====
-- A call of the calculator under the lease of Core/Authority/Sample.
use jake_ai.Core.Authority.{
  authorize_bound_effect, authorize_effect, check, begin_check, is_valid, authorize_checked,
  finish_check, grants,
}
use jake_ai.Core.Identity.{
  configured_keys, validate_key_id, is_key_char, is_placeholder, decode_signing_key, is_strong,
  distinct, signing_key_is_retired, add_previous, is_past, with_previous,
}
use jake_ai.Core.Authority.Introspection.{
  check_state, is_brief, is_inactive, is_json, is_number, is_recent, is_true, judge, media_type,
  names_identity, or_unavailable, read_body, read_response,
}
use jake_ai.Core.Identity.Access.{is_lookalike, pairs, pairs_onto, unique_object}
use jake_ai.Core.Identity.Claims.{is_text}
use jake_ai.Prelude.{
  Dict, [], contains, false, insert, is_prefix, is_space, lookup, lower, mem_str, none, ok, refl,
  same_codes, some, strip, strip_left, strip_right, to_lower, true, ◌∷◌, ◌≡◌,
}
use jake_ai.Core.Authority.{AuthorityLease}
use jake_ai.Core.Identity.Sample.{claims}
use jake_ai.Core.Authority.Sample.{answer, lease, moment}
use jake_ai.Core.Json.{Json, text}
use jake_ai.Agent.Tools.{ToolMetadata, ToolResult, read_only}
use jake_ai.Agent.Tools.Policy.{
  Scanner, all_targets, argument_strings, evaluate, extract_strings, has_null_byte, is_malicious,
  with_slashes,
}
use jake_ai.Agent.Tools.Execution.{
  Context, Site, Tool, execute, finished, under, execute_leased, fits_property, is_in_range,
  run_checked, validate,
}
use jake_ai.Agent.Tools.Authorized.{IsInForce, Ran, leased_call_is_authorized}

abbrev allowed : AuthorityLease
allowed = record lease { claims = record claims { perms = "agent:read" ∷ "agent:execute" ∷ [] } }

abbrev scanner : Scanner
scanner = record { print = λ d. []; unquote = λ s. s; search = λ pattern_text s. false }

abbrev metadata : ToolMetadata
metadata = record {
  name = "calculator";
  description = "";
  input_schema = record {
    required = "expression" ∷ [];
    properties =
        (
          "expression",
          record { type_name = some "string"; min_length = some 1; minimum = none; maximum = none },
        )
        ∷ [];
    additional_properties = false;
  };
  permissions = "agent:read" ∷ [];
  risk_level = read_only;
  timeout_ms = 30000;
}

abbrev answered : ToolResult
answered = record { success = true; output = some "4"; failed = false; result_risk = read_only }

abbrev tools : Dict Tool
tools = ("calculator", record { metadata = metadata; run = λ args ctx. finished answered }) ∷ []

abbrev arguments : Dict Json
arguments = ("expression", text "2+2") ∷ []

abbrev site : Site
site = record {
  environment = "production";
  first = moment;
  first_answer = answer;
  second = moment;
  second_answer = answer;
}

-- the caller claims every permission
abbrev context : Context
context = record {
  tenant_id = allowed.claims.tid;
  user_id = none;
  permissions = "system:execute" ∷ [];
}

call : (execute site scanner "calculator" arguments context (some allowed) tools).0 ≡ ok answered
unfolding execute lookup authorize_bound_effect authorize_effect check begin_check is_valid
    configured_keys validate_key_id is_key_char is_placeholder is_prefix lower decode_signing_key
    is_strong distinct signing_key_is_retired add_previous execute_leased fits_property is_in_range
    run_checked validate all_targets argument_strings evaluate extract_strings has_null_byte
    is_malicious with_slashes check_state is_brief is_inactive is_json is_number is_recent is_true
    judge media_type names_identity or_unavailable read_body read_response authorize_checked
    finish_check grants is_lookalike pairs pairs_onto unique_object is_text is_past with_previous
    insert contains is_space same_codes strip strip_left strip_right to_lower
call = refl

unknown :
    (execute site scanner "shell" arguments context (some allowed) tools).0
    ≡ ok (record answered { success = false; output = none; failed = true })
unfolding execute lookup
unknown = refl

leased_call_is_authorized_example :
    (context.tenant_id ≡ allowed.claims.tid)
    × IsInForce moment answer allowed
    × (mem_str "calculator" ("calculator" ∷ "system_time" ∷ []) ≡ true)
    × ((tool : Tool) × (lookup "calculator" tools ≡ some tool)
        × Ran scanner tools "calculator" tool arguments (under allowed) answered)
leased_call_is_authorized_example =
    leased_call_is_authorized site scanner tools "calculator" arguments context allowed answered
      call refl
