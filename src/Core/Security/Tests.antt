-- ===== src/Core/Security/Tests.antt =====
-- The user of Identity/Sample is authenticated.
use jake_ai.Core.Identity.Access.{
  verify_access, verify_parts, split_dots, segment, unique_object, pairs, is_lookalike, key_id,
  signing_key, check_signature, pairs_onto,
}
use jake_ai.Core.Identity.{
  configured_keys, add_previous, decode_signing_key, distinct, is_key_char, is_past, is_placeholder,
  is_strong, signing_key_is_retired, validate_key_id, with_previous,
}
use jake_ai.Core.Json.{as_text, as_natural, as_texts, texts}
use jake_ai.Core.Identity.Claims.{
  is_text, audience, check_lifetime, digits, identifier_claim, integer_claim, is_audience, is_blank,
  is_live, optional_text, read_claims, str_of,
}
use jake_ai.Core.Authority.Introspection.{
  check_state, is_brief, is_inactive, is_json, is_number, is_recent, is_true, judge, media_type,
  names_identity, or_unavailable, read_body, read_response,
}
use jake_ai.Prelude.{
  [], insert, is_prefix, is_space, lookup, lower, none, ok, refl, same_codes, some, strip,
  strip_left, strip_right, to_lower, true, ◌∷◌, ◌≡◌,
}
use jake_ai.Core.Authority.{AuthorityLease, begin_check, check, finish_check, is_valid, lease_of}
use jake_ai.Core.Authority.Sample.{moment, answer, fresh}
use jake_ai.Core.Identity.Sample.{token}
use jake_ai.Core.Security.{TenantContext, get_current_tenant, verified_identity, context_of}
use jake_ai.Core.Security.Authentication.{Authenticated, get_current_tenant-Authenticated}

abbrev context : TenantContext
context = record {
  tenant_id = "acme";
  user_id = "42";
  explicit_tenant = true;
  roles = [];
  permissions = "agent:read" ∷ [];
  correlation_id = "c1";
}

abbrev checked : AuthorityLease
checked = record fresh { checked_monotonic = 5000 }

known : get_current_tenant (λ t. "k1") moment answer "c1" none (some token) ≡ ok (context, checked)
unfolding get_current_tenant verified_identity verify_access verify_parts split_dots segment
    same_codes unique_object pairs lookup insert is_lookalike key_id as_text is_text signing_key
    configured_keys check_state is_brief is_inactive is_json is_number is_recent is_true judge
    media_type names_identity or_unavailable read_body read_response strip strip_left strip_right
    begin_check check finish_check is_valid lease_of check_signature pairs_onto audience
    check_lifetime digits identifier_claim integer_claim is_audience is_blank is_live is_space
    optional_text read_claims str_of add_previous decode_signing_key distinct is_key_char is_past
    is_placeholder is_strong signing_key_is_retired validate_key_id with_previous as_natural
    as_texts texts context_of is_prefix lower to_lower
known = refl

get_current_tenant-Authenticated_example : Authenticated moment answer token context checked
get_current_tenant-Authenticated_example =
    get_current_tenant-Authenticated (λ t. "k1") moment answer "c1" token context checked known
