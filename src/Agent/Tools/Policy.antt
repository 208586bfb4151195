-- ===== src/Agent/Tools/Policy.antt =====
-- agent/tools/policy.py: `ToolPolicyEngine.evaluate`, with its patterns. The search for a regular
-- expression, URL decoding and the printing of a dict are those of libraries: the fields of `Scanner`.
use jake_ai.Prelude.{
  Bool, Dict, List, String, [], any, codes, contains, false, if◌then◌else◌, map, not, true, ℕ, ◌++◌,
  ◌==◌, ◌||◌, ◌∷◌,
}
use jake_ai.Core.Authority.{grants}
use jake_ai.Core.Json.{
  Json, JsonItems, JsonMembers, array, item, member, no_items, no_members, object, text,
}
use jake_ai.Agent.Tools.{ToolMetadata, dangerous}

pub record Scanner : Type 0 where
  -- `str(arguments)`
  pub print : Dict Json → List ℕ
  -- `urllib.parse.unquote`
  pub unquote : List ℕ → List ℕ
  -- `re.compile(pattern, re.IGNORECASE).search(text)`
  pub search : String → List ℕ → Bool

-- `_DANGEROUS_PATTERNS`
abbrev pub dangerous_patterns : List String
dangerous_patterns =
    "\\brm\\s+-(?:[a-zA-Z]*[rf][a-zA-Z]*)\\b" ∷ "\\bmkfs(?:\\.\\w+)?\\b" ∷ "\\bdd\\s+if="
    ∷ ":\\(\\)\\s*\\{\\s*:\\|:&\\s*\\}\\s*;" ∷ "\\bcurl\\b.*\\|\\s*(?:bash|sh|zsh|dash)"
    ∷ "\\bwget\\b.*\\|\\s*(?:bash|sh|zsh|dash)" ∷ "\\|\\s*(?:bash|sh|zsh|dash)\\b"
    ∷ ">\\s*/dev/(?:sd[a-z]|nvme|zero|null)" ∷ "\\b(?:nc|netcat|ncat)\\b.*-e\\s+/\\w+"
    ∷ "(?:bash|sh)\\s+-i\\s+>&" ∷ "/dev/tcp/\\d+" ∷ "\\bchmod\\s+(?:-R\\s+)?777\\s+/"
    ∷ "\\b(?:cat|head|tail|less|more)\\s+/etc/(?:shadow|sudoers)\\b" ∷ []

-- `_SENSITIVE_PATHS`
abbrev pub sensitive_paths : List String
sensitive_paths =
    "/etc/(?:passwd|shadow|sudoers|master\\.passwd)" ∷ "/proc/(?:self|\\d+)/(?:environ|cmdline|mem)"
    ∷ "(?:^|[\\\\/])\\.ssh(?:[\\\\/]|$)" ∷ "(?:^|[\\\\/])id_rsa(?:[\\\\/]|$)"
    ∷ "[a-z]:\\\\windows\\\\(?:system32|win\\.ini|system\\.ini)" ∷ "\\\\system32\\\\config\\\\sam"
    ∷ []

-- some pattern is found in some text
unfoldable pub finds : Scanner → List String → List (List ℕ) → Bool
finds s patterns texts = any (λ pattern_text. any (s.search pattern_text) texts) patterns

-- `_extract_strings`
unfoldable mutual
  pub extract_strings : Json → List (List ℕ)
  extract_strings (text s) = codes s ∷ []
  extract_strings (array xs) = extract_items xs
  extract_strings (object ms) = extract_members ms
  extract_strings _ = []

  pub extract_items : JsonItems → List (List ℕ)
  extract_items no_items = []
  extract_items (item x xs) = extract_strings x ++ extract_items xs

  pub extract_members : JsonMembers → List (List ℕ)
  extract_members no_members = []
  extract_members (member k x ms) = codes k ∷ (extract_strings x ++ extract_members ms)

unfoldable pub argument_strings : Dict Json → List (List ℕ)
unfolding extract_strings
argument_strings [] = []
argument_strings ((k, x) ∷ d) = codes k ∷ (extract_strings x ++ argument_strings d)

-- `s.replace("\\", "/")`
unfoldable pub with_slashes : List ℕ → List ℕ
with_slashes = map (λ c. if c == 92 then 47 else c)

-- a null byte, plain, in a URL or as an escape
unfoldable pub has_null_byte : List ℕ → Bool
unfolding contains
has_null_byte raw =
    contains (0 ∷ []) raw || contains (codes "%00") raw || contains (92 ∷ codes "x00") raw

-- the tests of one pass of the loop over `all_targets`
unfoldable pub is_malicious : Scanner → List ℕ → Bool
unfolding contains with_slashes has_null_byte finds
is_malicious s raw =
    let decoded = s.unquote (s.unquote raw) in
    let norm = with_slashes decoded in
    has_null_byte raw
    || contains (codes "..") decoded
    || contains (codes "..") norm
    || finds s sensitive_paths (decoded ∷ norm ∷ raw ∷ [])
    || finds s dangerous_patterns (decoded ∷ norm ∷ raw ∷ [])

pub record ToolPolicyDecision : Type 0 where
  pub allowed : Bool
  pub requires_approval : Bool

abbrev pub is_dangerous_tool : ToolMetadata → Bool
is_dangerous_tool meta = elim meta.risk_level [ dangerous ↦ true | _ ↦ false ]

-- everything that the loop looks at
unfoldable pub all_targets : Scanner → Dict Json → List (List ℕ)
unfolding argument_strings
all_targets s arguments = argument_strings arguments ++ (s.print arguments ∷ [])

-- roles are not looked at
unfoldable pub evaluate : Scanner → ToolMetadata → Dict Json → List String → ToolPolicyDecision
unfolding grants all_targets is_malicious
evaluate s meta arguments user_permissions =
    if not (grants user_permissions meta.permissions)
    then record { allowed = false; requires_approval = false }
    else if any (is_malicious s) (all_targets s arguments)
    then record { allowed = false; requires_approval = false }
    else record { allowed = true; requires_approval = is_dangerous_tool meta }
