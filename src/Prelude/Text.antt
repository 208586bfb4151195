-- ===== src/Prelude/Text.antt =====
-- Text as the program searches it: the code points of a string, `str.lower` on them, and the test
-- `needle in haystack`. Lower-casing is that of the ASCII letters; every text that the program
-- searches for is ASCII.
use Prim.Native.Nat.{ℕ, ◌+◌}
use Prim.Native.Char.{code}
use Prim.Native.String.{String}
use mathlib.Core.Path.{◌≡◌, refl}
use mathlib.Core.Bool.{Bool, true, false, ◌&&◌, ◌||◌}
use mathlib.Core.List.{List, [], ◌∷◌, map}
use jake_ai.Prelude.Tests.{leb, ◌==◌, if◌then◌else◌}

abbrev pub codes : String → List ℕ
codes String.[] = []
codes (String.◌∷◌ c s) = code c ∷ codes s

unfoldable pub to_lower : ℕ → ℕ
to_lower c = if leb b'A' c && leb c b'Z' then c + 32 else c

unfoldable pub lower : List ℕ → List ℕ
unfolding to_lower
lower = map to_lower

unfoldable pub is_prefix : List ℕ → List ℕ → Bool
is_prefix [] ys = true
is_prefix (x ∷ xs) [] = false
is_prefix (x ∷ xs) (y ∷ ys) = x == y && is_prefix xs ys

-- `==` of two texts, or of two sequences of bytes
unfoldable pub same_codes : List ℕ → List ℕ → Bool
same_codes [] [] = true
same_codes (c ∷ cs) (d ∷ ds) = c == d && same_codes cs ds
same_codes _ _ = false

-- `needle in haystack`
unfoldable pub contains : List ℕ → List ℕ → Bool
unfolding is_prefix
contains needle [] = is_prefix needle []
contains needle (y ∷ ys) = is_prefix needle (y ∷ ys) || contains needle ys

-- `any(marker in text for marker in markers)`
unfoldable pub contains_any : List String → List ℕ → Bool
unfolding contains
contains_any [] text = false
contains_any (m ∷ ms) text = contains (codes m) text || contains_any ms text

-- `str.isspace` of a code point
unfoldable pub is_space : ℕ → Bool
is_space c =
    c == 32
    || (leb 9 c && leb c 13)
    || (leb 28 c && leb c 31)
    || c == 133
    || c == 160
    || c == 5760
    || (leb 8192 c && leb c 8202)
    || (leb 8232 c && leb c 8233)
    || c == 8239
    || c == 8287
    || c == 12288

abbrev is_empty : List ℕ → Bool
is_empty [] = true
is_empty (_ ∷ _) = false

unfoldable pub strip_left : List ℕ → List ℕ
unfolding is_space
strip_left [] = []
strip_left (c ∷ cs) = let rest = strip_left cs in if is_space c then rest else c ∷ cs

unfoldable pub strip_right : List ℕ → List ℕ
unfolding is_space
strip_right [] = []
strip_right (c ∷ cs) =
    let rest = strip_right cs in if is_space c && is_empty rest then [] else c ∷ rest

-- `str.strip`
unfoldable pub strip : List ℕ → List ℕ
unfolding strip_left strip_right
strip cs = strip_right (strip_left cs)

contains_found : contains (codes "rate limit") (lower (codes "HTTP 429: Rate Limit hit")) ≡ true
unfolding contains lower
contains_found = refl

contains_missing : contains (codes "timeout") (lower (codes "Rate Limit hit")) ≡ false
unfolding contains lower
contains_missing = refl
