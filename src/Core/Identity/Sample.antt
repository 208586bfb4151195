-- ===== src/Core/Identity/Sample.antt =====
-- A user's token and keys, with a library that is as small as they need: a segment of the token is
-- its first letter, and a key is named by its first byte.
use jake_ai.Prelude.{
  Dict, String, [], codes, if◌then◌else◌, none, ok, pos, same_codes, some, str_eq, suc, true, zero,
  ℕ, ◌+◌, ◌>>=◌, ◌∷◌,
}
use jake_ai.Core.Json.{Json, bool, int, text, array, item, no_items}
use jake_ai.Core.Identity.{Key, Library, Settings}
use jake_ai.Core.Identity.Claims.{Claims}

abbrev count_up : ℕ → ℕ → Key
count_up first zero = []
count_up first (suc n) = first ∷ count_up (first + 1) n

abbrev pub current_key : Key
current_key = count_up 0 32

abbrev pub old_key : Key
old_key = count_up 1 32

abbrev key_name : Key → String
key_name (zero ∷ _) = "current"
key_name _ = "old"

abbrev header : Dict Json
header = ("alg", text "HS256") ∷ ("kid", text "k1") ∷ []

abbrev claim_set : Dict Json
claim_set =
    ("contract_ver", int (pos 1))
    ∷ ("iss", text "finnapigo")
    ∷ ("aud", array (item (text "finnapigo-api") (item (text "jakeai-service") no_items)))
    ∷ ("sub", text "42")
    ∷ ("uid", int (pos 42))
    ∷ ("type", text "access")
    ∷ ("tid", text "acme")
    ∷ ("exp", int (pos 1600))
    ∷ ("iat", int (pos 1000))
    ∷ ("nbf", int (pos 1000))
    ∷ ("jti", text "j1")
    ∷ ("sid", text "s1")
    ∷ ("pwdver", int (pos 2))
    ∷ ("auth_epoch", int (pos 3))
    ∷ ("perms", array (item (text "agent:read") no_items))
    ∷ []

abbrev state : Dict Json
state =
    ("active", bool true)
    ∷ ("contract_ver", int (pos 1))
    ∷ ("tid", text "acme")
    ∷ ("sub", text "42")
    ∷ ("sid", text "s1")
    ∷ ("jti", text "j1")
    ∷ ("pwdver", int (pos 2))
    ∷ ("auth_epoch", int (pos 3))
    ∷ ("checked_at", int (pos 1200))
    ∷ ("max_cache_seconds", int (pos 0))
    ∷ []

abbrev document : Key → Dict Json
document raw =
    if same_codes raw (codes "H")
    then header
    else if same_codes raw (codes "C")
    then claim_set
    else state

abbrev pub library : Library
library = record {
  b64decode = λ value. some (if str_eq value "current" then current_key else old_key);
  b64encode = key_name;
  base64url_decode = λ part. some part;
  base64url_encode = λ raw. raw;
  digest = λ raw. "digest";
  hex = λ raw. raw;
  loads = λ hook raw. hook (document raw) >>= λ d. ok (some d);
  casefold = λ s. s;
  accepts = λ token key. true;
}

abbrev pub settings : Settings
settings = record {
  jwt_algorithm = "HS256";
  jwt_issuer = "finnapigo";
  jwt_audience = "jakeai-service";
  jwt_key_id = "k1";
  jwt_secret_key = "current";
  jwt_secret_previous = some "old";
  jwt_previous_key_id = "k0";
  jwt_previous_last_issued_at = some (pos 900);
}

abbrev pub now : ℕ
now = 1200000

abbrev pub token : String
token = "H.C.G"

abbrev pub claims : Claims
claims = record {
  contract_ver = 1;
  uid = 42;
  pwdver = 2;
  auth_epoch = 3;
  exp = 1600;
  iat = 1000;
  nbf = 1000;
  sub = "42";
  tid = "acme";
  sid = "s1";
  jti = "j1";
  perms = "agent:read" ∷ [];
  role = none;
}
