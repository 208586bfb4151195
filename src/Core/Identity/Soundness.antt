-- ===== src/Core/Identity/Soundness.antt =====
-- What an accepted access token has passed.
use jake_ai.Core.Identity.Claims.{
  Claims, str_of, is_blank, read_claims, check_lifetime, integer_claim, identifier_claim, is_live,
}
use jake_ai.Core.Json.{Json}
use jake_ai.Core.Identity.Access.{
  split_dots, header_names, claim_names, verify_parts, check_signature, signing_key, segment,
  unique_object, verify_access, key_id,
}
use jake_ai.Core.Json.{Json}
use jake_ai.Core.Identity.Access.{verify_parts, check_signature, signing_key, segment}
use jake_ai.Prelude.{
  Bool-cases, Dict, List, Result-cases, String, [], arith, bind-ok, codes, false, inl, inr, length,
  lookup, ltb, ok, same_codes, some, true, ℕ, ◌*◌, ◌+◌, ◌<◌, ◌>>=◌, ◌∷◌, ◌≡◌, ◌≤◌,
}
use jake_ai.Core.Identity.{Library, Settings, Key, configured_keys}

-- What the claims of an accepted token are at a time.
pub record Verified (now : ℕ) (c : Claims) : Type 0 where
  pub version : c.contract_ver ≡ 1
  pub subject : (0 < c.uid) × (same_codes (codes c.sub) (str_of c.uid) ≡ true)
  pub identified :
      (is_blank (codes c.tid) ≡ false)
      × (is_blank (codes c.sid) ≡ false)
      × (is_blank (codes c.jti) ≡ false)
  pub bounded :
      (c.exp ≤ 9223372036854775807)
      × (c.uid ≤ 9223372036854775807)
      × (c.auth_epoch ≤ 9223372036854775807)
  pub lifetime : (c.iat < c.exp) × (c.exp ≤ c.iat + 900)
  pub ordered : (c.iat ≤ c.nbf) × (c.nbf ≤ c.exp)
  pub current : (c.nbf * 1000 ≤ now + 30000) × (now < (c.exp + 30) * 1000)

read_claims-Verified :
    (claims : Dict Json) (now : ℕ) (c : Claims)
    → (read_claims claims >>= check_lifetime now) ≡ ok c
    → Verified now c
unfolding read_claims check_lifetime integer_claim identifier_claim is_live
read_claims-Verified claims now c h = ground arith

-- A key in force that accepts the signature of the token.
abbrev pub Signed : Library → Settings → ℕ → String → Type 0
Signed lib s now token =
    (keys : Dict Key) × (kid : String) × (key : Key) × (configured_keys lib s now ≡ ok keys)
    × (lookup kid keys ≡ some key)
    × (lib.accepts token key ≡ true)

signed :
    (lib : Library) (s : Settings) (now : ℕ) (token kid : String) (key : Key) (part : List ℕ)
    → signing_key lib s now kid ≡ ok key
    → check_signature lib token key part ≡ ok tt
    → Signed lib s now token
unfolding signing_key check_signature
signed lib s now token kid key part found accepted =
    elim (Result-cases (configured_keys lib s now)) [
      | inl (e, refused) ↦ cc
      | inr (keys, given) ↦ (keys, kid, key, given, ground arith, ground arith)
    ]

verify_parts_sound :
    (lib : Library) (s : Settings) (now : ℕ) (token : String) (parts : List (List ℕ)) (c : Claims)
    → verify_parts lib s now token parts ≡ ok c
    → Verified now c × Signed lib s now token
unfolding verify_parts
verify_parts_sound lib s now token (p ∷ q ∷ r ∷ []) c h =
    let (first, _, h1) = bind-ok (segment lib p) _ c h in
    let (second, _, h2) = bind-ok (segment lib q) _ c h1 in
    let (header, _, h3) = bind-ok (unique_object lib header_names first) _ c h2 in
    let (claims, _, h4) = bind-ok (unique_object lib claim_names second) _ c h3 in
    let (kid, _, h5) = bind-ok (key_id header) _ c h4 in
    let (key, found, h6) = bind-ok (signing_key lib s now kid) _ c h5 in
    let (_, accepted, h7) = bind-ok (check_signature lib token key r) _ c h6 in
    (read_claims-Verified claims now c h7, signed lib s now token kid key r found accepted)
verify_parts_sound lib s now token [] c h = cc
verify_parts_sound lib s now token (p ∷ []) c h = cc
verify_parts_sound lib s now token (p ∷ q ∷ []) c h = cc
verify_parts_sound lib s now token (p ∷ q ∷ r ∷ t ∷ ts) c h = cc

-- An access token that is accepted carries a signature that a key in force accepts, and its claims
-- are whole: version 1, a subject that is the decimal text of a positive user id, identifiers that
-- are not blank, a lifetime of at most 900 seconds that starts no later than it may be used, and a
-- time of use no more than 30 seconds outside of it.
pub verify_access-Verified :
    (lib : Library) (s : Settings) (now : ℕ) (token : String) (c : Claims)
    → verify_access lib s now token ≡ ok c
    → Verified now c × Signed lib s now token
unfolding verify_access
verify_access-Verified lib s now token c h = elim (Bool-cases (ltb 12288 (length (codes token)))) [
  | inl long ↦ cc
  | inr short ↦ verify_parts_sound lib s now token (split_dots (codes token)) c (ground arith)
]
