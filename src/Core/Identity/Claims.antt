-- ===== src/Core/Identity/Claims.antt =====
-- What `verify_access` of core/identity.py demands of the claims of a token: each claim read by the
-- type that it must have, and its lifetime.
use jake_ai.Prelude.{
  Bool, Dict, List, Option, Result, String, [], all, any, codes, err, false, if◌then◌else◌, is_some,
  is_space, leb, length, lookup, ltb, mem_str, none, not, ok, same_codes, some, str_eq, suc,
  value_error, zero, ℕ, ◌%◌, ◌&&◌, ◌*◌, ◌+◌, ◌-◌, ◌/◌, ◌==◌, ◌>>=◌, ◌||◌, ◌∷◌,
}
use jake_ai.Core.Json.{Json, text, as_natural, as_text, as_texts}
use jake_ai.Core.Identity.{raise_if}

abbrev pub aliases : List String
aliases = "tenant_id" ∷ "permissions" ∷ "roles" ∷ "scopes" ∷ "id" ∷ []

abbrev pub mandatory : List String
mandatory =
    "contract_ver" ∷ "iss" ∷ "aud" ∷ "sub" ∷ "uid" ∷ "type" ∷ "tid" ∷ "exp" ∷ "iat" ∷ "nbf" ∷ "jti"
    ∷ "sid" ∷ "pwdver" ∷ "auth_epoch" ∷ "perms" ∷ []

-- What verification gives: the claims, each by the type that the checks establish.
pub record Claims : Type 0 where
  pub contract_ver : ℕ
  pub uid : ℕ
  pub pwdver : ℕ
  pub auth_epoch : ℕ
  pub exp : ℕ
  pub iat : ℕ
  pub nbf : ℕ
  pub sub : String
  pub tid : String
  pub sid : String
  pub jti : String
  pub perms : List String
  pub role : Option String

-- an `int` from 0 to 2^63 - 1
unfoldable pub integer_claim : String → Dict Json → Result ℕ
integer_claim name claims =
    as_natural (lookup name claims) >>= λ n. raise_if (ltb 9223372036854775807 n) (ok n)

-- `not s.strip()`
unfoldable pub is_blank : List ℕ → Bool
is_blank cs = all is_space cs

unfoldable pub identifier_claim : String → Dict Json → Result String
identifier_claim name claims =
    as_text (lookup name claims) >>= λ s. raise_if (is_blank (codes s)) (ok s)

-- a claim that may be missing, and is a text if it is there
unfoldable pub optional_text : String → Dict Json → Result (Option String)
optional_text name claims = elim (lookup name claims) [
  | none ↦ ok none
  | some v ↦ as_text (some v) >>= λ s. ok (some s)
]

-- the decimal digits of a number of at most `fuel` digits, before those that follow
unfoldable pub digits : ℕ → ℕ → List ℕ → List ℕ
digits zero n tail = tail
digits (suc fuel) n tail =
    let here = (48 + n % 10) ∷ tail in
    let more = digits fuel (n / 10) here in if n / 10 == 0 then here else more

-- `str(n)` for a claim, which has at most 19 digits
unfoldable pub str_of : ℕ → List ℕ
str_of n = digits 19 n []

unfoldable pub is_text : String → Option Json → Bool
is_text s (some (text t)) = str_eq t s
is_text s _ = false

unfoldable pub is_audience : List String → Bool
is_audience names =
    length names == 2 && mem_str "finnapigo-api" names && mem_str "jakeai-service" names

-- a text stands for the list of it
unfoldable pub audience : Dict Json → Result (List String)
audience claims = elim (lookup "aud" claims) [
  | some (text s) ↦ ok (s ∷ [])
  | other ↦ as_texts other
]

-- the validity of the lifetime: at most 900 seconds, and not out of it by more than 30
unfoldable pub is_live : ℕ → ℕ → ℕ → ℕ → Bool
is_live now exp iat nbf =
    ltb iat exp
    && leb (exp - iat) 900
    && leb iat nbf
    && leb nbf exp
    && leb (iat * 1000) (now + 30000)
    && leb (nbf * 1000) (now + 30000)
    && ltb now ((exp + 30) * 1000)

-- what the claims must say whatever the time
unfoldable pub read_claims : Dict Json → Result Claims
read_claims claims =
    if any (λ n. not (is_some (lookup n claims))) mandatory
      || any (λ n. is_some (lookup n claims)) aliases
    then err value_error
    else do
      contract_ver ← integer_claim "contract_ver" claims
      uid ← integer_claim "uid" claims
      pwdver ← integer_claim "pwdver" claims
      auth_epoch ← integer_claim "auth_epoch" claims
      exp ← integer_claim "exp" claims
      iat ← integer_claim "iat" claims
      nbf ← integer_claim "nbf" claims
      sub ← as_text (lookup "sub" claims)
      tid ← identifier_claim "tid" claims
      sid ← identifier_claim "sid" claims
      jti ← identifier_claim "jti" claims
      role ← optional_text "role" claims
      _ ← optional_text "email" claims
      perms ← as_texts (lookup "perms" claims)
      names ← audience claims
      raise_if
          (not (
            contract_ver == 1
            && is_text "finnapigo" (lookup "iss" claims)
            && is_text "access" (lookup "type" claims)
            && ltb 0 uid
            && same_codes (codes sub) (str_of uid)
            && is_audience names))
          (ok (record {
            contract_ver = contract_ver;
            uid = uid;
            pwdver = pwdver;
            auth_epoch = auth_epoch;
            exp = exp;
            iat = iat;
            nbf = nbf;
            sub = sub;
            tid = tid;
            sid = sid;
            jti = jti;
            perms = perms;
            role = role;
          }))

unfoldable pub check_lifetime : ℕ → Claims → Result Claims
check_lifetime now c = raise_if (not (is_live now c.exp c.iat c.nbf)) (ok c)
