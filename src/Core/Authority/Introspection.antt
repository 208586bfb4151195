-- ===== src/Core/Authority/Introspection.antt =====
-- `IdentityStateClient.check` of core/identity_state.py: what is made of an answer of the identity
-- authority. A call that fails or takes too long has no answer.
use jake_ai.Prelude.{
  Bool, Dict, List, Option, Result, String, [], codes, err, false, http_exception, if◌then◌else◌,
  leb, length, lookup, lower, ltb, negsuc, none, not, ok, or_else, pos, same_codes, some, str_eq,
  strip, value_error, ℕ, ◌&&◌, ◌*◌, ◌++◌, ◌+◌, ◌==◌, ◌>>=◌, ◌||◌, ◌∷◌,
}
use jake_ai.Core.Json.{Json, bool, int}
use jake_ai.Core.Identity.{Library, raise_if}
use jake_ai.Core.Identity.Claims.{Claims, is_text}
use jake_ai.Core.Identity.Access.{unique_object}

pub record Response : Type 0 where
  pub status_code : ℕ
  pub content_encoding : Option String
  pub content_type : Option String
  -- what `aiter_bytes` yields
  pub chunks : List (List ℕ)

-- `s.split(";", 1)[0]`
unfoldable pub media_type : List ℕ → List ℕ
media_type [] = []
media_type (c ∷ cs) = let rest = media_type cs in if c == b';' then [] else c ∷ rest

unfoldable pub is_json : Option String → Bool
is_json content_type =
    same_codes (lower (strip (media_type (codes (or_else content_type "")))))
      (codes "application/json")

-- the body, of 4096 bytes at most
unfoldable pub read_body : List ℕ → List (List ℕ) → Result (List ℕ)
read_body body [] = ok body
read_body body (chunk ∷ chunks) =
    let rest = read_body (body ++ chunk) chunks in
    if ltb 4096 (length (body ++ chunk)) then err value_error else rest

-- `result.keys() == {"active"} and result["active"] is False`
unfoldable pub is_inactive : Dict Json → Bool
is_inactive ((k, bool false) ∷ []) = str_eq k "active"
is_inactive _ = false

unfoldable pub is_number : ℕ → Option Json → Bool
is_number n (some (int (pos m))) = m == n
is_number n _ = false

unfoldable pub is_true : Option Json → Bool
is_true (some (bool b)) = b
is_true _ = false

-- the answer names the identity that was asked about
unfoldable pub names_identity : Claims → Dict Json → Bool
names_identity c d =
    is_number c.contract_ver (lookup "contract_ver" d)
    && is_text c.tid (lookup "tid" d)
    && is_text c.sub (lookup "sub" d)
    && is_text c.sid (lookup "sid" d)
    && is_text c.jti (lookup "jti" d)
    && is_number c.pwdver (lookup "pwdver" d)
    && is_number c.auth_epoch (lookup "auth_epoch" d)

-- `now - 5 <= checked_at <= now + 1`, an `int` of seconds
unfoldable pub is_recent : ℕ → Option Json → Bool
is_recent now (some (int (pos n))) = leb now (n * 1000 + 5000) && leb (n * 1000) (now + 1000)
is_recent now (some (int (negsuc n))) = leb (now + (n + 1) * 1000) 5000
is_recent now _ = false

-- `0 <= max_cache_seconds <= 15`
unfoldable pub is_brief : Option Json → Bool
is_brief (some (int (pos n))) = leb n 15
is_brief _ = false

unfoldable pub judge : ℕ → ℕ → Claims → Dict Json → Result (Unit {0})
judge now status_code c d =
    if status_code == 401 && is_inactive d
    then err (http_exception 401)
    else if status_code == 200
        && names_identity c d
        && is_true (lookup "active" d)
        && is_recent now (lookup "checked_at" d)
        && is_brief (lookup "max_cache_seconds" d)
    then ok tt
    else err value_error

unfoldable pub read_response : Library → ℕ → Claims → Response → Result (Unit {0})
read_response lib now c r =
    raise_if
      (not (str_eq (or_else r.content_encoding "identity") "identity")
        || not (is_json r.content_type))
      (do body ← read_body [] r.chunks; d ← unique_object lib [] body; judge now r.status_code c d)

-- an HTTP exception passes, every other failure is 503
unfoldable pub or_unavailable : Result (Unit {0}) → Result (Unit {0})
or_unavailable (ok _) = ok tt
or_unavailable (err (http_exception n)) = err (http_exception n)
or_unavailable (err _) = err (http_exception 503)

unfoldable pub check_state : Library → ℕ → Claims → Option Response → Result (Unit {0})
check_state lib now c none = err (http_exception 503)
check_state lib now c (some r) = or_unavailable (read_response lib now c r)
