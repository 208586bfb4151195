-- ===== src/Core/Identity/Access.antt =====
-- `unique_object` and `verify_access` of core/identity.py.
use jake_ai.Prelude.{
  Bool, Dict, List, Option, Result, String, [], any, codes, err, if◌then◌else◌, insert, is_some,
  length, lookup, ltb, none, not, ok, same_codes, some, str_eq, value_error, ℕ, ◌&&◌, ◌==◌, ◌>>=◌,
  ◌||◌, ◌∷◌,
}
use jake_ai.Core.Json.{Json, as_text}
use jake_ai.Core.Identity.Claims.{Claims, is_text, read_claims, check_lifetime}
use jake_ai.Core.Identity.{Key, Library, raise_if, Settings, configured_keys}

-- the `object_pairs_hook`: a repeated member is refused
unfoldable pub pairs_onto : Dict Json → List (String × Json) → Result (Dict Json)
pairs_onto result [] = ok result
pairs_onto result ((key, value) ∷ items) =
    let rest = pairs_onto (insert key value result) items in
    if is_some (lookup key result) then err value_error else rest

unfoldable pub pairs : List (String × Json) → Result (Dict Json)
unfolding pairs_onto
pairs items = pairs_onto [] items

-- a member that differs from a known name in case only
unfoldable pub is_lookalike : (String → String) → List String → String → Bool
is_lookalike casefold names key =
    any (λ name. not (str_eq key name) && str_eq (casefold key) (casefold name)) names

abbrev pub keys : Dict Json → List String
keys [] = []
keys ((k, _) ∷ d) = k ∷ keys d

unfoldable pub unique_object : Library → List String → Key → Result (Dict Json)
unique_object lib names raw = elim (lib.loads pairs raw) [
  | err e ↦ err value_error
  | ok none ↦ err value_error
  | ok (some d) ↦ if any (is_lookalike lib.casefold names) (keys d) then err value_error else ok d
]

abbrev pub header_names : List String
header_names =
    "alg" ∷ "kid" ∷ "typ" ∷ "cty" ∷ "crit" ∷ "jku" ∷ "jwk" ∷ "x5u" ∷ "x5c" ∷ "x5t" ∷ "x5t#S256"
    ∷ "b64" ∷ []

-- those that a header may not have
abbrev pub foreign_headers : List String
foreign_headers = "cty" ∷ "crit" ∷ "jku" ∷ "jwk" ∷ "x5u" ∷ "x5c" ∷ "x5t" ∷ "x5t#S256" ∷ "b64" ∷ []

abbrev pub retired_signature : String
retired_signature = "aaf884500d7d25e5ca1504276b3f8050a82f02c3950bcb7c6456a40f7e943a34"

abbrev pub claim_names : List String
claim_names =
    "contract_ver" ∷ "iss" ∷ "aud" ∷ "sub" ∷ "uid" ∷ "type" ∷ "tid" ∷ "exp" ∷ "iat" ∷ "nbf" ∷ "jti"
    ∷ "sid" ∷ "pwdver" ∷ "auth_epoch" ∷ "perms" ∷ "role" ∷ "email" ∷ "tenant_id" ∷ "permissions"
    ∷ "roles" ∷ "scopes" ∷ "id" ∷ []

unfoldable pub split_dots : List ℕ → List (List ℕ)
split_dots [] = [] ∷ []
split_dots (c ∷ cs) =
    let rest = split_dots cs in
    if c == b'.'
    then [] ∷ rest
    else elim rest [ [] ↦ (c ∷ []) ∷ [] | part ∷ parts ↦ (c ∷ part) ∷ parts ]

-- a canonical segment
unfoldable pub segment : Library → List ℕ → Result Key
segment lib part = elim (lib.base64url_decode part) [
  | none ↦ err value_error
  | some raw ↦ if same_codes (lib.base64url_encode raw) part then ok raw else err value_error
]

-- the JOSE policy, which gives the `kid`
unfoldable pub key_id : Dict Json → Result String
key_id header = do
  kid ← as_text (lookup "kid" header)
  raise_if
      (not (is_text "HS256" (lookup "alg" header))
        || any (λ n. is_some (lookup n header)) foreign_headers
        || (is_some (lookup "typ" header) && not (is_text "JWT" (lookup "typ" header))))
      (ok kid)

abbrev pub known_key : Option Key → Result Key
known_key none = err value_error
known_key (some key) = ok key

unfoldable pub signing_key : Library → Settings → ℕ → String → Result Key
signing_key lib s now kid = configured_keys lib s now >>= λ found. known_key (lookup kid found)

-- the signature is decoded, is not that of the retired token, and is accepted
unfoldable pub check_signature : Library → String → Key → List ℕ → Result (Unit {0})
check_signature lib token key part = elim (lib.base64url_decode part) [
  | none ↦ err value_error
  | some signature ↦
      raise_if (str_eq (lib.digest signature) retired_signature || not (lib.accepts token key))
        (ok tt)
]

-- a token of three segments
unfoldable pub verify_parts : Library → Settings → ℕ → String → List (List ℕ) → Result Claims
verify_parts lib s now token (p ∷ q ∷ r ∷ []) = do
  first ← segment lib p
  second ← segment lib q
  header ← unique_object lib header_names first
  claims ← unique_object lib claim_names second
  kid ← key_id header
  key ← signing_key lib s now kid
  _ ← check_signature lib token key r
  c ← read_claims claims
  check_lifetime now c
verify_parts lib s now token _ = err value_error

unfoldable pub verify_access : Library → Settings → ℕ → String → Result Claims
verify_access lib s now token =
    raise_if (ltb 12288 (length (codes token)))
      (verify_parts lib s now token (split_dots (codes token)))
