-- ===== src/Agent/Memory/Recall.antt =====
-- What is recalled of the memory of a tenant.
use jake_ai.Prelude.{
  All, Bool, Bool-cases, Dict, List, Option, Option-cases, String, [], arith, eq_iff, false,
  if◌then◌else◌, inl, inr, insert, leb, length, lookup, lookup-insert, lookup-nil, max, not, refl,
  str_eq, subst, sym, true, values, ℕ, ◌&&◌, ◌+◌, ◌-◌, ◌∷◌, ◌≡◌, ◌≤◌,
}
use jake_ai.Agent.Memory.{
  MemoryEntry, scan, is_expired, is_visible, matches, Fact, TenantEntries, store, entries_of,
  search_entries,
}

-- An entry that may be recalled.
abbrev pub IsRecallable : ℕ → Option String → Option String → MemoryEntry → Type 0
IsRecallable now query user e =
    (is_expired now e ≡ false) × (matches query e ≡ true) × (is_visible user e ≡ true)

-- It may be recalled, and belongs to the tenant.
abbrev pub IsRecalled : String → ℕ → Option String → Option String → MemoryEntry → Type 0
IsRecalled t now query user e = (e.tenant_id ≡ t) × IsRecallable now query user e

-- what the test of the loop says of an entry
abbrev is_wanted : ℕ → Option String → Option String → MemoryEntry → Bool
is_wanted now query user e = not (is_expired now e) && matches query e && is_visible user e

wanted_lem :
    (now : ℕ) (query user : Option String) (e : MemoryEntry)
    → is_wanted now query user e ≡ true
    → IsRecallable now query user e
wanted_lem now query user e h = (ground arith, ground arith, ground arith)

-- What holds of the rest, and of the entry if it is wanted, holds of what the loop makes of them.
All-picked :
    (P : MemoryEntry → Type 0) (expired wanted full : Bool) (eid : String) (e : MemoryEntry)
    (rest : List MemoryEntry × List String)
    → All P rest.0
    → (wanted ≡ true → P e)
    → All P
        (if expired
          then (rest.0, eid ∷ rest.1)
          else if not wanted
          then rest
          else if full
          then (e ∷ [], [])
          else (e ∷ rest.0, rest.1)).0
All-picked P true wanted full eid e rest h here = h
All-picked P false false full eid e rest h here = h
All-picked P false true true eid e rest h here = (here refl, tt)
All-picked P false true false eid e rest h here = (here refl, h)

scan-IsRecalled :
    (t : String) (now : ℕ) (query user : Option String) (limit found : ℕ) (d : Dict MemoryEntry)
    → All (λ (e : MemoryEntry). e.tenant_id ≡ t) (values d)
    → All (IsRecalled t now query user) (scan now query user limit found d).0
unfolding scan
scan-IsRecalled t now query user limit found [] own = tt
scan-IsRecalled t now query user limit found ((eid, e) ∷ d) (here, own) =
    let wanted = is_wanted now query user e in
    All-picked (IsRecalled t now query user) (is_expired now e) wanted (leb limit (found + 1)) eid e
      _ (scan-IsRecalled t now query user limit (if wanted then found + 1 else found) d own)
      (λ good. (here, wanted_lem now query user e good))

scan-length :
    (now : ℕ) (query user : Option String) (limit found : ℕ) (d : Dict MemoryEntry)
    → length (scan now query user limit found d).0 ≤ max (limit - found) 1
unfolding scan
scan-length now query user limit found [] = ground arith
scan-length now query user limit found ((eid, e) ∷ d) = ground (
  arith,
  scan-length now query user limit (found + 1) d,
  scan-length now query user limit found d,
)

-- What a client may do to the memory of tenants before it recalls.
unfoldable pub store_all : ℕ → List (String × ℕ × Fact) → TenantEntries → TenantEntries
store_all default_ttl [] s = s
store_all default_ttl ((entry_id, now, f) ∷ facts) s =
    store_all default_ttl facts (store default_ttl entry_id now f s).1

-- Every entry stands under its own tenant.
abbrev IsPartitioned : String → TenantEntries → Type 0
IsPartitioned t s = All (λ (e : MemoryEntry). e.tenant_id ≡ t) (values (entries_of t s))

All-values-insert :
    (P : MemoryEntry → Type 0) (k : String) (e : MemoryEntry) (d : Dict MemoryEntry)
    → P e
    → All P (values d)
    → All P (values (insert k e d))
unfolding insert
All-values-insert P k e [] h hs = (h, tt)
All-values-insert P k e ((j, w) ∷ d) h (hw, hs) = elim (Bool-cases (str_eq j k)) [
  | inl same ↦ rw same (h, hs)
  | inr other ↦ rw other (hw, All-values-insert P k e d h hs)
]

store-IsPartitioned :
    (t : String) (default_ttl : ℕ) (entry_id : String) (now : ℕ) (f : Fact) (s : TenantEntries)
    → IsPartitioned t s
    → IsPartitioned t (store default_ttl entry_id now f s).1
unfolding store
store-IsPartitioned t default_ttl entry_id now f s h =
    let entry = (store default_ttl entry_id now f s).0 in
    let grown = insert entry_id entry (entries_of f.tenant_id s) in
    let found = lookup-insert f.tenant_id t grown s in
    elim (Bool-cases (str_eq f.tenant_id t)) [
      | inl own ↦
          let same = (eq_iff f.tenant_id t).0 own in
          rw (found, own)
            (All-values-insert (λ (e : MemoryEntry). e.tenant_id ≡ t) entry_id entry _ same
              (subst (λ k. All (λ (e : MemoryEntry). e.tenant_id ≡ t) (values (entries_of k s)))
                (sym same) h))
      | inr other ↦ rw (found, other) h
    ]

store_all-IsPartitioned :
    (t : String) (default_ttl : ℕ) (facts : List (String × ℕ × Fact)) (s : TenantEntries)
    → IsPartitioned t s
    → IsPartitioned t (store_all default_ttl facts s)
unfolding store_all
store_all-IsPartitioned t default_ttl [] s h = h
store_all-IsPartitioned t default_ttl ((entry_id, now, f) ∷ facts) s h =
    store_all-IsPartitioned t default_ttl facts (store default_ttl entry_id now f s).1
      (store-IsPartitioned t default_ttl entry_id now f s h)

-- The results are those of the loop over the entries of the tenant.
results_lem :
    (now : ℕ) (t : String) (query user : Option String) (limit : ℕ) (s : TenantEntries)
    → (search_entries now t query user limit s).0 ≡ (scan now query user limit 0 (entries_of t s)).0
unfolding search_entries scan
results_lem now t query user limit s = elim (Option-cases (lookup t s)) [
  | inl unknown ↦ ground arith
  | inr (d, known) ↦ ground arith
]

search_entries-IsRecalled :
    (t : String) (now : ℕ) (query user : Option String) (limit : ℕ) (s : TenantEntries)
    → IsPartitioned t s
    → All (IsRecalled t now query user) (search_entries now t query user limit s).0
      × (length (search_entries now t query user limit s).0 ≤ max limit 1)
search_entries-IsRecalled t now query user limit s h =
    subst (λ es. All (IsRecalled t now query user) es × (length es ≤ max limit 1))
      (sym (results_lem now t query user limit s))
      (
        scan-IsRecalled t now query user limit 0 (entries_of t s) h,
        omega (arith, scan-length now query user limit 0 (entries_of t s)),
      )

-- Whatever facts of whatever tenants were stored in an empty memory, what a tenant recalls are entries of
-- its own that have not expired, match the query and are not those of another user, and no more than
-- the limit, or one where the limit is zero.
pub recall_is_isolated :
    (default_ttl : ℕ) (facts : List (String × ℕ × Fact)) (t : String) (now : ℕ)
    (query user : Option String) (limit : ℕ)
    → All
        (IsRecalled t now query user)
        (search_entries now t query user limit (store_all default_ttl facts [])).0
      × (length (search_entries now t query user limit (store_all default_ttl facts [])).0
          ≤ max limit 1)
recall_is_isolated default_ttl facts t now query user limit =
    search_entries-IsRecalled t now query user limit (store_all default_ttl facts [])
      (store_all-IsPartitioned t default_ttl facts [] (rw (lookup-nil {V = Dict MemoryEntry} t) tt))
