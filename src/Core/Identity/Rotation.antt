-- ===== src/Core/Identity/Rotation.antt =====
-- Key rotation: how long the previous key is kept, and what that means for the tokens it signed.
use jake_ai.Core.Identity.Access.{signing_key}
use jake_ai.Core.Identity.Claims.{is_live}
use jake_ai.Prelude.{
  Dict, String, [], arith, eq_iff, err, false, if◌then◌else◌, insert, lookup, lookup-insert_self,
  ltb, ok, pos, refl, same_codes, some, str_eq, str_eq_refl, true, value_error, ℕ, ◌&&◌, ◌*◌, ◌+◌,
  ◌<◌, ◌∙◌, ◌∷◌, ◌≡◌, ◌≤◌,
}
use jake_ai.Core.Identity.{
  Key, Library, Settings, configured_keys, add_previous, with_previous, is_past, validate_key_id,
  decode_signing_key,
}

-- Coherent settings of a rotation: both keys can be read, they and their ids differ, and the
-- previous key was last used at `last`.
pub record Rotation (lib : Library) (s : Settings) (now : ℕ) (current old : Key) (previous : String)
    (last : ℕ) : Type 0 where
  pub policy :
      (str_eq s.jwt_algorithm "HS256"
        && str_eq s.jwt_issuer "finnapigo"
        && str_eq s.jwt_audience "jakeai-service")
      ≡ true
  pub key_id : validate_key_id s.jwt_key_id ≡ ok s.jwt_key_id
  pub secret : decode_signing_key lib s.jwt_secret_key ≡ ok current
  pub named : s.jwt_secret_previous ≡ some previous
  pub nonempty : str_eq previous "" ≡ false
  pub previous_key_id : validate_key_id s.jwt_previous_key_id ≡ ok s.jwt_previous_key_id
  pub previous_secret : decode_signing_key lib previous ≡ ok old
  pub differ : same_codes old current ≡ false
  pub ids_differ : str_eq s.jwt_previous_key_id s.jwt_key_id ≡ false
  pub issued : s.jwt_previous_last_issued_at ≡ some (pos last)
  pub past : (0 < last) × (last * 1000 ≤ now)

-- the keys in force under coherent settings
pub configured_keys-Rotation :
    (lib : Library) (s : Settings) (now : ℕ) (current old : Key) (previous : String) (last : ℕ)
    → Rotation lib s now current old previous last
    → configured_keys lib s now
      ≡ ok (
          if ltb now ((last + 930) * 1000)
          then insert s.jwt_previous_key_id old ((s.jwt_key_id, current) ∷ [])
          else (s.jwt_key_id, current) ∷ [])
unfolding configured_keys add_previous with_previous is_past
configured_keys-Rotation lib s now current old previous last h =
    rw
      (
        h.policy, h.key_id, h.secret, h.named, h.nonempty, h.previous_key_id, h.previous_secret,
        h.differ, h.ids_differ, h.issued,
      )
      (ground (arith, h.past))

signing_key-found :
    (lib : Library) (s : Settings) (now : ℕ) (kid : String) (d : Dict Key) (key : Key)
    → configured_keys lib s now ≡ ok d
    → lookup kid d ≡ some key
    → signing_key lib s now kid ≡ ok key
unfolding signing_key
signing_key-found lib s now kid d key e found = rw (e, found) refl

-- The grace of a rotation is as long as a token may live: under coherent settings, a token that is
-- live and that the previous key signed no later than its last use still finds that key.
pub Rotation-keeps_live_tokens :
    (lib : Library) (s : Settings) (now : ℕ) (current old : Key) (previous : String) (last : ℕ)
    (exp iat nbf : ℕ)
    → Rotation lib s now current old previous last
    → is_live now exp iat nbf ≡ true
    → iat ≤ last
    → signing_key lib s now s.jwt_previous_key_id ≡ ok old
unfolding signing_key is_live
Rotation-keeps_live_tokens lib s now current old previous last exp iat nbf h live signed =
    let young : ltb now ((last + 930) * 1000) ≡ true = ground arith in
    let keys : Dict Key = (s.jwt_key_id, current) ∷ [] in
    signing_key-found lib s now s.jwt_previous_key_id (insert s.jwt_previous_key_id old keys) old
      (configured_keys-Rotation lib s now current old previous last h ∙ rw young refl)
      (lookup-insert_self s.jwt_previous_key_id old keys)

-- Once the grace is over, a token under the previous key finds no key, whatever it claims.
pub Rotation-retires_previous_key :
    (lib : Library) (s : Settings) (now : ℕ) (current old : Key) (previous : String) (last : ℕ)
    → Rotation lib s now current old previous last
    → (last + 930) * 1000 ≤ now
    → (signing_key lib s now s.jwt_previous_key_id ≡ err value_error)
      × (signing_key lib s now s.jwt_key_id ≡ ok current)
unfolding signing_key lookup
Rotation-retires_previous_key lib s now current old previous last h over =
    let late : ltb now ((last + 930) * 1000) ≡ false = ground arith in
    rw (configured_keys-Rotation lib s now current old previous last h, late)
      (ground (
        arith,
        h.ids_differ,
        eq_iff s.jwt_previous_key_id s.jwt_key_id,
        eq_iff s.jwt_key_id s.jwt_previous_key_id,
        str_eq_refl s.jwt_key_id,
      ))
