-- ===== src/Core/Identity/Tests.antt =====
-- A token of user 42, and a rotation of keys.
use jake_ai.Core.Identity.{
  validate_key_id, is_key_char, is_placeholder, decode_signing_key, is_strong,
  signing_key_is_retired, distinct, configured_keys, add_previous, is_past, with_previous,
}
use jake_ai.Core.Identity.Claims.{
  is_live, is_text, audience, check_lifetime, digits, identifier_claim, integer_claim, is_audience,
  is_blank, optional_text, read_claims, str_of,
}
use jake_ai.Core.Identity.Rotation.{Rotation-keeps_live_tokens, Rotation}
use jake_ai.Core.Json.{as_text, as_natural, as_texts, texts}
use jake_ai.Prelude.{
  arith, false, insert, is_prefix, is_space, lookup, lower, ok, refl, same_codes, to_lower, ◌≡◌,
}
use jake_ai.Core.Identity.Access.{
  verify_access, verify_parts, split_dots, signing_key, segment, unique_object, pairs, pairs_onto,
  is_lookalike, key_id, check_signature,
}
use jake_ai.Core.Identity.Sample.{library, settings, now, token, claims, old_key, current_key}
use jake_ai.Core.Identity.Soundness.{Verified, Signed, verify_access-Verified}

accepted : verify_access library settings now token ≡ ok claims
unfolding verify_access verify_parts split_dots segment same_codes unique_object pairs pairs_onto
    lookup insert is_lookalike key_id as_text is_text signing_key configured_keys validate_key_id
    is_key_char check_signature audience check_lifetime digits identifier_claim integer_claim
    is_audience is_blank is_live is_space optional_text read_claims str_of add_previous
    decode_signing_key distinct is_past is_placeholder is_strong signing_key_is_retired
    with_previous as_natural as_texts texts is_prefix lower to_lower
accepted = refl

verify_access-Verified_example : Verified now claims × Signed library settings now token
verify_access-Verified_example = verify_access-Verified library settings now token claims accepted

rotation : Rotation library settings now current_key old_key "old" 900
unfolding validate_key_id is_key_char is_placeholder is_prefix lower to_lower decode_signing_key
    is_strong signing_key_is_retired distinct same_codes
rotation = record {
  policy = refl;
  key_id = refl;
  secret = refl;
  named = refl;
  nonempty = refl;
  previous_key_id = refl;
  previous_secret = refl;
  differ = refl;
  ids_differ = refl;
  issued = refl;
  past = (omega arith, omega arith);
}

live : is_live now 1600 1000 900 ≡ false
unfolding is_live
live = refl

Rotation-keeps_live_tokens_example : signing_key library settings now "k0" ≡ ok old_key
unfolding is_live
Rotation-keeps_live_tokens_example =
    Rotation-keeps_live_tokens library settings now current_key old_key "old" 900 1500 800 800
      rotation refl (omega arith)
