-- ===== src/Core/Authority/Tests.antt =====
-- An effect under a confirmed lease, and checks after a denial.
use jake_ai.Core.Identity.{
  configured_keys, validate_key_id, is_key_char, is_placeholder, decode_signing_key, is_strong,
  distinct, signing_key_is_retired, add_previous, with_previous, is_past,
}
use jake_ai.Core.Authority.Introspection.{
  check_state, is_brief, is_inactive, is_json, is_number, is_recent, is_true, judge, media_type,
  names_identity, or_unavailable, read_body, read_response,
}
use jake_ai.Core.Identity.Access.{is_lookalike, pairs, pairs_onto, unique_object}
use jake_ai.Core.Identity.Claims.{is_text}
use jake_ai.Prelude.{
  All, List, [], false, http_exception, insert, is_prefix, is_space, length, lookup, lower, none,
  ok, refl, same_codes, some, strip, strip_left, strip_right, to_lower, true, ◌++◌, ◌∷◌, ◌≡◌, ◌≢◌,
}
use jake_ai.Core.Authority.{
  AuthorityLease, is_valid, authorize_effect, grants, check, begin_check, authorize_checked,
  finish_check,
}
use jake_ai.Core.Authority.Sample.{moment, answer, lease}
use jake_ai.Core.Authority.Effects.{Confirms, effect_is_authorized}
use jake_ai.Core.Authority.Denial.{Event, begins, finishes, outcomes, Refused, denial_is_final}

effect : (authorize_effect moment answer ("agent:read" ∷ []) (some lease)).0 ≡ ok tt
unfolding authorize_effect check begin_check is_valid configured_keys validate_key_id is_key_char
    is_placeholder is_prefix lower decode_signing_key is_strong distinct signing_key_is_retired
    add_previous with_previous same_codes check_state is_brief is_inactive is_json is_number
    is_recent is_true judge media_type names_identity or_unavailable read_body read_response strip
    strip_left strip_right authorize_checked finish_check grants is_lookalike pairs pairs_onto
    unique_object is_space is_text is_past insert lookup to_lower
effect = refl

effect_is_authorized_example :
    (lease.denial ≡ none)
    × (is_valid moment lease ≡ true)
    × (length lease.operation_permissions ≢ 0)
    × (grants lease.claims.perms (lease.operation_permissions ++ ("agent:read" ∷ [])) ≡ true)
    × Confirms moment.lib moment.now lease.claims answer
effect_is_authorized_example = effect_is_authorized moment answer ("agent:read" ∷ []) lease effect

abbrev denied : AuthorityLease
denied = record lease { denial = some (http_exception 401) }

abbrev late_checks : List Event
late_checks = finishes moment (ok tt) ∷ begins moment true ∷ begins moment false ∷ []

denial_is_final_example : All Refused (outcomes late_checks denied)
denial_is_final_example = denial_is_final late_checks denied (http_exception 401) refl
