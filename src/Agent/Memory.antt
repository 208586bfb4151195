-- ===== src/Agent/Memory.antt =====
-- agent/memory: the memory of a run (short_term.py), the memory of a tenant (long_term.py) and the
-- manager of both (manager.py), with the records of base.py. Times are milliseconds; a time to live is
-- no less than zero. The ids that `uuid` draws and the readings of the clock are arguments.
pub mod Conversation
pub mod Recall
mod Tests
use jake_ai.Prelude.{
  Bool, Dict, List, Option, String, Value, [], any, append_bounded, codes, contains, drop, erase,
  false, if◌then◌else◌, insert, is_prefix, is_some, leb, length, lookup, lower, ltb, none, not,
  or_else, some, str_eq, true, ℕ, ◌&&◌, ◌++◌, ◌+◌, ◌==◌, ◌||◌, ◌∷◌,
}

pub data MemoryScope : Type 0 where
  short_term session long_term : MemoryScope

pub record MemoryEntry : Type 0 where
  pub entry_id : String
  pub tenant_id : String
  pub user_id : Option String
  pub scope : MemoryScope
  pub key : String
  pub value : Value
  pub summary : Option String
  pub created_at : ℕ
  pub expires_at : Option ℕ
  pub metadata : Dict Value

pub record AgentMessage : Type 0 where
  pub role : String
  pub content : String

pub record ShortTermMemory : Type 0 where
  pub max_entries : ℕ
  pub entries : List MemoryEntry
  pub messages : List AgentMessage

-- `pop(0)`, or `pop(1)` where a system message is first and more than two are there
unfoldable pub evict : List AgentMessage → List AgentMessage
evict [] = []
evict (first ∷ rest) =
    if str_eq first.role "system" && ltb 2 (length (first ∷ rest))
    then first ∷ drop 1 rest
    else rest

unfoldable pub add_message : AgentMessage → ShortTermMemory → ShortTermMemory
add_message message m =
    let longer = m.messages ++ (message ∷ []) in
    record m { messages = if ltb m.max_entries (length longer) then evict longer else longer }

unfoldable pub store_entry :
    String
    → ℕ
    → String
    → Value
    → String
    → Option String
    → Option String
    → ShortTermMemory
    → MemoryEntry × ShortTermMemory
store_entry entry_id now key value tenant_id user_id summary m =
    let entry : MemoryEntry = record {
      entry_id = entry_id;
      tenant_id = tenant_id;
      user_id = user_id;
      scope = short_term;
      key = key;
      value = value;
      summary = summary;
      created_at = now;
      expires_at = none;
      metadata = [];
    } in
    (entry, record m { entries = append_bounded m.max_entries entry m.entries })

-- the value of the last entry of a key
unfoldable pub get_value : String → List MemoryEntry → Option Value
get_value key [] = none
get_value key (e ∷ es) =
    let later = get_value key es in
    if is_some later then later else (if str_eq e.key key then some e.value else none)

unfoldable pub get : String → ShortTermMemory → Option Value
get key m = get_value key m.entries

unfoldable pub clear : ShortTermMemory → ShortTermMemory
clear m = record m { entries = []; messages = [] }

-- `LongTermMemory._store`: tenant, then entry id
abbrev pub TenantEntries : Type 0
TenantEntries = Dict (Dict MemoryEntry)

-- what the caller of `store` gives
pub record Fact : Type 0 where
  pub tenant_id : String
  pub key : String
  pub value : Value
  pub user_id : Option String
  pub summary : Option String
  pub ttl : Option ℕ
  pub metadata : Dict Value

abbrev entries_of : String → TenantEntries → Dict MemoryEntry
entries_of tenant_id s = or_else (lookup tenant_id s) []

unfoldable pub store : ℕ → String → ℕ → Fact → TenantEntries → MemoryEntry × TenantEntries
store default_ttl entry_id now f s =
    let ttl = or_else f.ttl default_ttl in
    let entry : MemoryEntry = record {
      entry_id = entry_id;
      tenant_id = f.tenant_id;
      user_id = f.user_id;
      scope = long_term;
      key = f.key;
      value = f.value;
      summary = f.summary;
      created_at = now;
      expires_at = if ltb 0 ttl then some (now + ttl) else none;
      metadata = f.metadata;
    } in
    (entry, insert f.tenant_id (insert entry_id entry (entries_of f.tenant_id s)) s)

-- `entry.expires_at and now > entry.expires_at`
unfoldable pub is_expired : ℕ → MemoryEntry → Bool
is_expired now e = elim e.expires_at [ none ↦ false | some at ↦ ltb 0 at && ltb at now ]

-- an entry that has expired is deleted when it is looked up
unfoldable pub get_entry : ℕ → String → String → TenantEntries → Option MemoryEntry × TenantEntries
get_entry now tenant_id entry_id s = elim (lookup entry_id (entries_of tenant_id s)) [
  | none ↦ (none, s)
  | some e ↦
      if is_expired now e
      then (none, insert tenant_id (erase entry_id (entries_of tenant_id s)) s)
      else (some e, s)
]

-- `k.split("_")`
unfoldable pub split_words : List ℕ → List (List ℕ)
split_words [] = [] ∷ []
split_words (c ∷ cs) =
    let rest = split_words cs in
    if c == b'_' then [] ∷ rest else elim rest [ [] ↦ (c ∷ []) ∷ [] | w ∷ ws ↦ (c ∷ w) ∷ ws ]

abbrev in_summary : List ℕ → Option String → Bool
in_summary query none = false
in_summary query (some summary) = contains query (lower (codes summary))

unfoldable pub matches : Option String → MemoryEntry → Bool
matches none e = true
matches (some prefix_text) e =
    let query = lower (codes prefix_text) in
    let key = lower (codes e.key) in
    str_eq prefix_text ""
    || is_prefix (codes prefix_text) (codes e.key)
    || contains query key
    || contains key query
    || any (λ word. ltb 2 (length word) && contains word query) (split_words key)
    || in_summary query e.summary

-- not (`user_id and entry.user_id and entry.user_id != user_id`)
unfoldable pub is_visible : Option String → MemoryEntry → Bool
is_visible user e =
    let asker = or_else user "" in
    let owner = or_else e.user_id "" in str_eq asker "" || str_eq owner "" || str_eq owner asker

-- the loop of `search`, with `found` results so far: the results and the ids that have expired
unfoldable pub scan :
    ℕ → Option String → Option String → ℕ → ℕ → Dict MemoryEntry → List MemoryEntry × List String
scan now query user limit found [] = ([], [])
scan now query user limit found ((eid, e) ∷ d) =
    let wanted = not (is_expired now e) && matches query e && is_visible user e in
    let rest = scan now query user limit (if wanted then found + 1 else found) d in
    if is_expired now e
    then (rest.0, eid ∷ rest.1)
    else if not wanted
    then rest
    else if leb limit (found + 1)
    then (e ∷ [], [])
    else (e ∷ rest.0, rest.1)

unfoldable pub erase_all : List String → Dict MemoryEntry → Dict MemoryEntry
erase_all [] d = d
erase_all (k ∷ ks) d = erase_all ks (erase k d)

-- `search`
unfoldable pub search_entries :
    ℕ
    → String
    → Option String
    → Option String
    → ℕ
    → TenantEntries
    → List MemoryEntry × TenantEntries
search_entries now tenant_id query user limit s = elim (lookup tenant_id s) [
  | none ↦ ([], s)
  | some d ↦
      let (results, expired) = scan now query user limit 0 d in
      (results, insert tenant_id (erase_all expired d) s)
]

unfoldable pub delete : String → String → TenantEntries → Bool × TenantEntries
delete tenant_id entry_id s =
    if is_some (lookup entry_id (entries_of tenant_id s))
    then (true, insert tenant_id (erase entry_id (entries_of tenant_id s)) s)
    else (false, s)

unfoldable pub clear_tenant : String → TenantEntries → TenantEntries
clear_tenant tenant_id s = erase tenant_id s

-- `AgentMemoryManager._active_runs`
unfoldable pub get_run_memory :
    String → ℕ → Dict ShortTermMemory → ShortTermMemory × Dict ShortTermMemory
get_run_memory run_id max_entries runs = elim (lookup run_id runs) [
  | some m ↦ (m, runs)
  | none ↦
      let fresh : ShortTermMemory = record {
        max_entries = max_entries;
        entries = [];
        messages = [];
      } in
      (fresh, insert run_id fresh runs)
]

unfoldable pub remove_run_memory : String → Dict ShortTermMemory → Dict ShortTermMemory
remove_run_memory run_id runs = erase run_id runs
