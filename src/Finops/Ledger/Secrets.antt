-- ===== src/Finops/Ledger/Secrets.antt =====
-- What is read back from the ledger names no secret.
use jake_ai.Prelude.{
  All, All-append, Bool, Bool-cases, Dict, List, Option, String, Value, [], drop, eq_iff, false,
  filter, if_both, inl, inr, length, or_else, str_eq, subst, suc, sym, take, zero, ℕ, ◌-◌, ◌∷◌, ◌≡◌,
}
use jake_ai.Finops.Ledger.{
  FinOpsRecord, is_secret, clean, sanitize_record, get_records, reversed, of_period,
}
use jake_ai.Finops.Ledger.Ring.{record_all, log_of, ledger_is_end_of_log}

-- a record of the tenant, none of whose metadata has a secret name
abbrev pub IsClean : String → FinOpsRecord → Type 0
IsClean t r = (r.tenant_id ≡ t) × All (λ (e : String × Value). is_secret e.0 ≡ false) r.metadata

clean_lem : (d : Dict Value) → All (λ (e : String × Value). is_secret e.0 ≡ false) (clean d)
unfolding clean
clean_lem [] = tt
clean_lem ((k, v) ∷ d) = elim (Bool-cases (is_secret k)) [
  | inl secret ↦ rw secret (clean_lem d)
  | inr harmless ↦ rw harmless (harmless, clean_lem d)
]

log_of-IsClean : (t : String) (rs : List FinOpsRecord) → All (IsClean t) (log_of t rs)
unfolding log_of sanitize_record
log_of-IsClean t [] = tt
log_of-IsClean t (r ∷ rs) = elim (Bool-cases (str_eq r.tenant_id t)) [
  | inl own ↦ rw own (((eq_iff r.tenant_id t).0 own, clean_lem r.metadata), log_of-IsClean t rs)
  | inr other ↦ rw other (log_of-IsClean t rs)
]

module _ {ℓ κ} {A : Type ℓ} (P : A → Type κ) where
  All-drop : (n : ℕ) (xs : List A) → All P xs → All P (drop n xs)
  All-drop zero xs h = h
  All-drop (suc n) [] h = h
  All-drop (suc n) (x ∷ xs) h = All-drop n xs h.1

  All-take : (n : ℕ) (xs : List A) → All P xs → All P (take n xs)
  All-take zero xs h = tt
  All-take (suc n) [] h = h
  All-take (suc n) (x ∷ xs) h = (h.0, All-take n xs h.1)

  All-reversed : (xs : List A) → All P xs → All P (reversed xs)
  unfolding reversed
  All-reversed [] h = h
  All-reversed (x ∷ xs) h = All-append P (reversed xs) (x ∷ []) (All-reversed xs h.1) (h.0, tt)

  All-filtered : (test : A → Bool) (xs : List A) → All P xs → All P (filter test xs)
  All-filtered test [] h = h
  All-filtered test (x ∷ xs) h =
      if_both (All P) (test x) (x ∷ filter test xs) (filter test xs) (h.0, All-filtered test xs h.1)
        (All-filtered test xs h.1)

-- Whatever was recorded for whatever tenants in an empty ledger, every page that a tenant reads, of any
-- period, has records of that tenant only, and no metadata with the name of a secret.
pub pages-IsClean :
    (period_of : ℕ → String) (t : String) (period : Option String) (limit offset most : ℕ)
    (rs : List FinOpsRecord)
    → All (IsClean t) (
        get_records period_of t period limit offset
          (record_all rs (record { max_records_per_tenant = most; records = [] })))
unfolding get_records
pages-IsClean period_of t period limit offset most rs =
    let held =
      subst (All (IsClean t)) (sym (ledger_is_end_of_log t rs most))
        (All-drop (IsClean t) (length (log_of t rs) - most) (log_of t rs) (log_of-IsClean t rs)) in
    All-take (IsClean t) limit _ (
      All-drop (IsClean t) offset _ (
        All-reversed (IsClean t) _ (
          if_both (All (IsClean t)) (str_eq (or_else period "") "") _ _ held
            (All-filtered (IsClean t) (of_period period_of (or_else period "")) _ held))))
