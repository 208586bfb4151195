-- ===== src/Finops/Ledger/Ring.antt =====
-- The ledger of a tenant is the end of the log of all that was recorded for it.
use jake_ai.Prelude.{
  Bool-cases, List, String, [], ap, append-nil, append_assoc, append_bounded, append_bounded-last_n,
  drop-nil, eq_iff, if◌then◌else◌, inl, inr, last_n, lookup-insert, lookup-nil, refl, str_eq, sym,
  ℕ, ◌++◌, ◌-◌, ◌∙◌, ◌∷◌, ◌≡◌,
}
use jake_ai.Finops.Ledger.{FinOpsRecord, Ledger, sanitize_record, record_inference, records_of}

unfoldable pub record_all : List FinOpsRecord → Ledger → Ledger
record_all [] l = l
record_all (r ∷ rs) l = record_all rs (record_inference r l).1

-- what was recorded for a tenant, sanitized, oldest first
unfoldable pub log_of : String → List FinOpsRecord → List FinOpsRecord
log_of tenant_id [] = []
log_of tenant_id (r ∷ rs) =
    let rest = log_of tenant_id rs in
    if str_eq r.tenant_id tenant_id then sanitize_record r ∷ rest else rest

-- What a record does to the list of a tenant.
records_of-record_inference :
    (t : String) (r : FinOpsRecord) (l : Ledger)
    → records_of t (record_inference r l).1 ≡ (
        if str_eq r.tenant_id t
        then append_bounded l.max_records_per_tenant (sanitize_record r) (records_of t l)
        else records_of t l)
unfolding records_of record_inference sanitize_record
records_of-record_inference t r l =
    let grown =
      append_bounded l.max_records_per_tenant (sanitize_record r) (records_of r.tenant_id l) in
    let found = lookup-insert r.tenant_id t grown l.records in
    elim (Bool-cases (str_eq r.tenant_id t)) [
      | inl own ↦
          let same = (eq_iff r.tenant_id t).0 own in
          rw (found, own)
            (ap (λ k. append_bounded l.max_records_per_tenant (sanitize_record r) (records_of k l))
              same)
      | inr other ↦ rw (found, other) refl
    ]

record_all-last_n :
    (t : String) (rs log : List FinOpsRecord) (l : Ledger)
    → records_of t l ≡ last_n l.max_records_per_tenant log
    → records_of t (record_all rs l) ≡ last_n l.max_records_per_tenant (log ++ log_of t rs)
unfolding record_all log_of record_inference
record_all-last_n t [] log l h = rw (append-nil log) h
record_all-last_n t (r ∷ rs) log l h = elim (Bool-cases (str_eq r.tenant_id t)) [
  | inl own ↦
      let most = l.max_records_per_tenant in
      let step : records_of t (record_inference r l).1
          ≡ last_n most (log ++ (sanitize_record r ∷ [])) =
        records_of-record_inference t r l
        ∙ rw own (ap (append_bounded most (sanitize_record r)) h)
        ∙ append_bounded-last_n most (sanitize_record r) log in
      rw own (
        record_all-last_n t rs (log ++ (sanitize_record r ∷ [])) (record_inference r l).1 step
        ∙ ap (last_n most) (append_assoc log (sanitize_record r ∷ []) (log_of t rs)))
  | inr other ↦ rw other (
      record_all-last_n t rs log (record_inference r l).1
        (records_of-record_inference t r l ∙ rw other h))
]

-- Whatever inferences of whatever tenants are recorded in an empty ledger, what it holds of a tenant are
-- the newest of the records of that tenant alone, without secrets, as many as the ring has room for.
pub ledger_is_end_of_log :
    (t : String) (rs : List FinOpsRecord) (most : ℕ)
    → records_of t (record_all rs (record { max_records_per_tenant = most; records = [] }))
      ≡ last_n most (log_of t rs)
unfolding records_of
ledger_is_end_of_log t rs most =
    record_all-last_n t rs [] (record { max_records_per_tenant = most; records = [] })
      (rw (lookup-nil {V = List FinOpsRecord} t) (sym (drop-nil (0 - most))))
