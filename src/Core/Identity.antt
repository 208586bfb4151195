-- ===== src/Core/Identity.antt =====
-- core/identity.py and core/secret_material.py: the trust policy for access tokens. Times are
-- milliseconds, the claims and the settings hold whole seconds. What base64, SHA-256, the JSON
-- parser and the JWT library do are the fields of `Library`; a text that is hashed is its code
-- points.
pub mod Claims
pub mod Access
pub mod Sample
mod Tests
pub mod Soundness
pub mod Rotation
use jake_ai.Prelude.{
  Bool, Dict, List, Option, Result, String, [], all, any, codes, err, false, if◌then◌else◌, insert,
  is_prefix, is_some, leb, length, lower, ltb, mem_str, none, not, ok, or_else, pos, pos_part,
  same_codes, some, str_eq, suc, true, value_error, ℕ, ℤ, ◌&&◌, ◌*◌, ◌+◌, ◌==◌, ◌>>=◌, ◌||◌, ◌∷◌,
}
use jake_ai.Core.Json.{Json}

-- the bytes of a key
abbrev pub Key : Type 0
Key = List ℕ

pub record Library : Type 0 where
  -- `base64.b64decode(value, validate=True)` and its inverse
  pub b64decode : String → Option Key
  pub b64encode : Key → String
  -- `jwt.utils.base64url_decode` of an ASCII text, and its inverse
  pub base64url_decode : List ℕ → Option Key
  pub base64url_encode : Key → List ℕ
  -- `hashlib.sha256(...).hexdigest()`
  pub digest : List ℕ → String
  -- `bytes.hex`
  pub hex : Key → List ℕ
  -- `json.loads` with its `object_pairs_hook`
  pub loads : (List (String × Json) → Result (Dict Json)) → Key → Result (Option (Dict Json))
  pub casefold : String → String
  -- whether `jwt.decode` accepts the signature of the token
  pub accepts : String → Key → Bool

pub record Settings : Type 0 where
  pub jwt_algorithm : String
  pub jwt_issuer : String
  pub jwt_audience : String
  pub jwt_key_id : String
  pub jwt_secret_key : String
  pub jwt_secret_previous : Option String
  pub jwt_previous_key_id : String
  pub jwt_previous_last_issued_at : Option ℤ

abbrev pub raise_if {ℓ} : {A : Type ℓ} → Bool → Result A → Result A
raise_if true next = err value_error
raise_if false next = next

-- `[A-Za-z0-9_-]`
unfoldable pub is_key_char : ℕ → Bool
is_key_char c =
    (leb b'A' c && leb c b'Z')
    || (leb b'a' c && leb c b'z')
    || (leb b'0' c && leb c b'9')
    || c == b'_'
    || c == b'-'

unfoldable pub is_placeholder : List ℕ → Bool
is_placeholder value =
    is_prefix (codes "replace-") value
    || is_prefix (codes "placeholder") value
    || is_prefix (codes "changeme") value

unfoldable pub validate_key_id : String → Result String
validate_key_id value =
    let cs = codes value in
    raise_if
      (not (leb 1 (length cs) && leb (length cs) 64 && all is_key_char cs)
        || is_placeholder (lower cs))
      (ok value)

-- `len(set(raw))`
unfoldable pub distinct : Key → ℕ
distinct [] = 0
distinct (b ∷ bs) = let rest = distinct bs in if any (λ c. c == b) bs then rest else suc rest

abbrev pub retired_digests : List String
retired_digests =
    "012139cca3d51efe0c377b3694d80297d4e4e6f645605d5bf0a6d96461207bc5"
    ∷ "2967b9341fb99ae06ae2824ae41273b9d527820627ecd440cb7133292ec2dc56" ∷ []

abbrev is_hex : ℕ → Bool
is_hex c = (leb b'0' c && leb c b'9') || (leb b'a' c && leb c b'f') || (leb b'A' c && leb c b'F')

unfoldable pub signing_key_is_retired : Library → List ℕ → Bool
signing_key_is_retired lib value =
    let canonical = if length value == 64 && all is_hex value then lower value else value in
    mem_str (lib.digest canonical) retired_digests

unfoldable pub is_strong : Library → String → Key → Bool
is_strong lib value raw =
    str_eq (lib.b64encode raw) value
    && leb 32 (length raw)
    && leb 16 (distinct raw)
    && not (signing_key_is_retired lib (codes value))
    && not (signing_key_is_retired lib (lib.hex raw))
    && not (mem_str (lib.digest raw) retired_digests)

unfoldable pub decode_signing_key : Library → String → Result Key
decode_signing_key lib value = elim (lib.b64decode value) [
  | none ↦ err value_error
  | some raw ↦ if is_strong lib value raw then ok raw else err value_error
]

-- whether the previous key's settings are coherent: `type(last) is int`, positive and past
unfoldable pub is_past : ℕ → Option ℤ → Bool
is_past now none = false
is_past now (some last) = ltb 0 (pos_part last) && leb (pos_part last * 1000) now

-- the key that signs and, until 930 seconds after its last use, the one before it
unfoldable pub with_previous : Library → Settings → ℕ → Key → String → Result (Dict Key)
with_previous lib s now current previous = do
  _ ← validate_key_id s.jwt_previous_key_id
  old ← decode_signing_key lib previous
  let keys = (s.jwt_key_id, current) ∷ [] in
      raise_if
        (same_codes old current
          || str_eq s.jwt_previous_key_id s.jwt_key_id
          || not (is_past now s.jwt_previous_last_issued_at))
        (ok (
          if ltb now ((pos_part (or_else s.jwt_previous_last_issued_at (pos 0)) + 930) * 1000)
          then insert s.jwt_previous_key_id old keys
          else keys))

-- `not previous` first
unfoldable pub add_previous : Library → Settings → ℕ → Key → Result (Dict Key)
add_previous lib s now current =
    let previous = or_else s.jwt_secret_previous "" in
    if str_eq previous ""
    then raise_if (not (str_eq s.jwt_previous_key_id "") || is_some s.jwt_previous_last_issued_at)
        (ok ((s.jwt_key_id, current) ∷ []))
    else with_previous lib s now current previous

unfoldable pub configured_keys : Library → Settings → ℕ → Result (Dict Key)
configured_keys lib s now =
    raise_if
      (not (
        str_eq s.jwt_algorithm "HS256"
        && str_eq s.jwt_issuer "finnapigo"
        && str_eq s.jwt_audience "jakeai-service"))
      (do
        _ ← validate_key_id s.jwt_key_id
        current ← decode_signing_key lib s.jwt_secret_key
        add_previous lib s now current)
