-- ===== src/Core/RoutePolicy/Tests.antt =====
-- A user reads a task of its own, and its credential expires while the response is sent.
use jake_ai.Core.Identity.{
  configured_keys, validate_key_id, is_key_char, is_placeholder, decode_signing_key, is_strong,
  distinct, signing_key_is_retired, add_previous, with_previous, is_past,
}
use jake_ai.Core.RoutePolicy.{policy_for, suffix_of, find_rule, unaliased, last_part_onto}
use jake_ai.Core.Identity.Access.{
  verify_access, verify_parts, split_dots, segment, unique_object, pairs, is_lookalike, key_id,
  signing_key, check_signature, pairs_onto,
}
use jake_ai.Core.Json.{as_text, as_natural, as_texts, texts}
use jake_ai.Core.Identity.Claims.{
  is_text, audience, check_lifetime, digits, identifier_claim, integer_claim, is_audience, is_blank,
  is_live, optional_text, read_claims, str_of,
}
use jake_ai.Core.Authority.Introspection.{
  check_state, is_brief, is_inactive, is_json, is_number, is_recent, is_true, judge, media_type,
  names_identity, or_unavailable, read_body, read_response,
}
use jake_ai.Core.RoutePolicy.Ownership.{check_owned, check_run, is_own_run, or_not_found}
use jake_ai.Prelude.{
  List, Option, [], codes, contains, false, insert, is_prefix, is_space, lookup, lower, none, ok,
  refl, same_codes, some, strip, strip_left, strip_right, to_lower, true, ◌++◌, ◌∷◌, ◌≡◌,
}
use jake_ai.Agent.TaskStatus
use jake_ai.Agent.TaskState.{TaskState}
use jake_ai.Agent.Manager.{Manager, get_or_restore_run, get_task}
use jake_ai.Core.Authority.{Moment, is_valid, begin_check, check, finish_check, lease_of}
use jake_ai.Core.Authority.Sample.{moment, answer, lease}
use jake_ai.Core.Security.{
  TenantContext, get_current_tenant, verified_identity, context_of, has_all_permissions,
}
use jake_ai.Core.RoutePolicy.Gate.{
  Request, Matched, Surroundings, gate, served, http, gate_http, authorize, authorize_user, bearer,
  check_ownership, check_rule, ends_with, is_withheld, serve_user,
}
use jake_ai.Core.RoutePolicy.Delivery.{
  Happening, sends, waits, response_start, response_body, deliver,
}
use jake_ai.Core.RoutePolicy.Stops.{IsDelivery, deliver-IsDelivery, Stops, expired_credential-Stops}
use jake_ai.Core.RoutePolicy.Admission.{Admitted, served-Admitted}

abbrev context : TenantContext
context = record {
  tenant_id = "acme";
  user_id = "42";
  explicit_tenant = true;
  roles = [];
  permissions = "agent:read" ∷ [];
  correlation_id = "c1";
}

abbrev task : TaskState
task = record {
  task_id = "task_1";
  tenant_id = "acme";
  user_id = "42";
  goal = "a report";
  status = TaskStatus.running;
  active_run_id = none;
  created_at = 1;
  updated_at = 1;
  metadata = [];
  enforced_status = some TaskStatus.running;
}

abbrev manager : Manager
manager = record {
  max_iterations = 10;
  tasks = ("task_1", task) ∷ [];
  runs = [];
  cancellation_flags = [];
  approvals = [];
}

abbrev surroundings : Surroundings
surroundings = record {
  api = codes "/api/v1";
  operator_metrics_secret = "";
  kid_of = λ t. "k1";
  moment = moment;
  answer = answer;
  loaded = ok none;
}

abbrev request : Request
request = record {
  scope_type = http;
  method = "GET";
  path = codes "/api/v1/agent/tasks/task_1";
  has_origin = false;
  has_requested_method = false;
  operator_secret = "";
  authorization = "Bearer H.C.G" ∷ [];
  correlation_id = "c1";
}

abbrev route : Option Matched
route = some (record {
  route_path = codes "/api/v1/agent/tasks/{task_id}";
  params = ("task_id", "task_1") ∷ [];
})

is_served : gate surroundings request route manager ≡ (served context lease, manager)
unfolding gate gate_http same_codes authorize policy_for suffix_of is_prefix find_rule unaliased
    authorize_user bearer get_current_tenant verified_identity verify_access verify_parts split_dots
    segment unique_object pairs lookup insert is_lookalike key_id as_text is_text signing_key
    configured_keys validate_key_id is_key_char is_placeholder lower decode_signing_key is_strong
    distinct get_or_restore_run get_task check_state is_brief is_inactive is_json is_number
    is_recent is_true judge media_type names_identity or_unavailable read_body read_response strip
    strip_left strip_right begin_check check finish_check is_valid lease_of check_signature
    pairs_onto audience check_lifetime digits identifier_claim integer_claim is_audience is_blank
    is_live is_space optional_text read_claims str_of add_previous is_past signing_key_is_retired
    with_previous as_natural as_texts texts check_ownership check_rule ends_with is_withheld
    serve_user check_owned check_run is_own_run or_not_found last_part_onto context_of
    has_all_permissions contains to_lower
is_served = refl

served-Admitted_example : Admitted surroundings request route manager context lease
served-Admitted_example =
    served-Admitted surroundings request route manager manager context lease is_served

abbrev late : Moment
late = record moment { now = 1640000 }

abbrev before : List Happening
before = sends moment none (response_start 200) ∷ []

abbrev all_events : List Happening
all_events =
    before ++ sends late answer (response_body (codes "data") false) ∷ waits late answer ∷ []

deliver-IsDelivery_example : IsDelivery false lease all_events (deliver all_events false lease)
deliver-IsDelivery_example = deliver-IsDelivery all_events false lease

out_of_date : is_valid late lease ≡ false
unfolding is_valid configured_keys validate_key_id is_key_char is_placeholder is_prefix lower
    decode_signing_key is_strong distinct signing_key_is_retired add_previous with_previous
    same_codes is_past lookup insert to_lower
out_of_date = refl

expired_credential-Stops_example :
    Stops (deliver before false lease) (deliver all_events false lease)
expired_credential-Stops_example =
    expired_credential-Stops before (waits late answer ∷ []) late answer
      (response_body (codes "data") false) false lease refl out_of_date
