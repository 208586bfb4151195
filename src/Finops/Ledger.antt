-- ===== src/Finops/Ledger.antt =====
-- finops/ledger.py: the ledger of finished inferences. Costs and savings are micro-dollars; the billing
-- period of a time (`time.strftime("%Y-%m", time.gmtime(t))`) is an argument, and so is the current
-- period where the caller names none.
pub mod Ring
pub mod Secrets
mod Tests
use jake_ai.Prelude.{
  Bool, Dict, List, Option, String, Value, [], append_bounded, codes, contains_any, count_if, drop,
  false, filter, if◌then◌else◌, insert, length, lookup, lower, or_else, str_eq, take, true, ℕ, ℤ,
  ◌++◌, ◌+◌, ◌-◌, ◌∷◌,
}
use jake_ai.Finops.Attribution.{SavingsAttribution}

pub data ReconciliationStatus : Type 0 where
  authoritative estimated : ReconciliationStatus

pub record FinOpsRecord : Type 0 where
  pub request_id : String
  pub tenant_id : String
  pub provider : String
  pub model : String
  pub timestamp : ℕ
  pub estimated_local_tokens : ℕ
  pub raw_tokens : ℕ
  pub optimized_tokens : ℕ
  pub physical_tokens_removed : ℕ
  pub cached_tokens : ℕ
  pub uncached_tokens : ℕ
  pub output_tokens : ℕ
  pub baseline_cost : ℕ
  pub effective_cost : ℕ
  pub savings_attribution : SavingsAttribution
  pub reconciliation_status : ReconciliationStatus
  pub variance_tokens : Option ℤ
  pub variance_cost : Option ℤ
  pub metadata : Dict Value

pub record Ledger : Type 0 where
  pub max_records_per_tenant : ℕ
  pub records : Dict (List FinOpsRecord)

abbrev pub secret_markers : List String
secret_markers = "key" ∷ "token" ∷ "auth" ∷ "secret" ∷ "bearer" ∷ []

unfoldable pub is_secret : String → Bool
is_secret k = contains_any secret_markers (lower (codes k))

unfoldable pub clean : Dict Value → Dict Value
clean [] = []
clean ((k, v) ∷ d) = let rest = clean d in if is_secret k then rest else (k, v) ∷ rest

unfoldable pub sanitize_record : FinOpsRecord → FinOpsRecord
sanitize_record r = record r { metadata = clean r.metadata }

-- `self._records.get(tenant_id, [])`
unfoldable pub records_of : String → Ledger → List FinOpsRecord
records_of tenant_id l = or_else (lookup tenant_id l.records) []

-- `record`
unfoldable pub record_inference : FinOpsRecord → Ledger → FinOpsRecord × Ledger
record_inference r l =
    let kept = sanitize_record r in
    (
      kept,
      record l {
        records =
            insert kept.tenant_id
              (append_bounded l.max_records_per_tenant kept (records_of kept.tenant_id l))
              l.records;
      },
    )

abbrev pub of_period : (ℕ → String) → String → FinOpsRecord → Bool
of_period period_of period r = str_eq (period_of r.timestamp) period

-- newest first
unfoldable pub reversed {ℓ} : {A : Type ℓ} → List A → List A
reversed [] = []
reversed (x ∷ xs) = reversed xs ++ (x ∷ [])

unfoldable pub get_records :
    (ℕ → String) → String → Option String → ℕ → ℕ → Ledger → List FinOpsRecord
get_records period_of tenant_id period limit offset l =
    let all_records = records_of tenant_id l in
    let named = or_else period "" in
    let filtered =
      if str_eq named "" then all_records else filter (of_period period_of named) all_records in
    take limit (drop offset (reversed filtered))

-- `sum(...)`
unfoldable pub total : (FinOpsRecord → ℕ) → List FinOpsRecord → ℕ
total value [] = 0
total value (r ∷ rs) = value r + total value rs

abbrev pub is_reconciled : FinOpsRecord → Bool
is_reconciled r = elim r.reconciliation_status [ authoritative ↦ true | estimated ↦ false ]

-- The sums of `get_summary`; the rates and percentages in it are quotients of these.
pub record Summary : Type 0 where
  pub total_requests : ℕ
  pub reconciled_requests : ℕ
  pub total_raw_tokens : ℕ
  pub total_optimized_tokens : ℕ
  pub total_physical_tokens_removed : ℕ
  pub total_cached_tokens : ℕ
  pub total_uncached_tokens : ℕ
  pub total_output_tokens : ℕ
  pub total_baseline_cost : ℕ
  pub total_actual_cost : ℕ
  pub total_savings : ℕ

unfoldable pub summarize : List FinOpsRecord → Summary
summarize rs =
    let base = total (λ (r : FinOpsRecord). r.baseline_cost) rs in
    let actual = total (λ (r : FinOpsRecord). r.effective_cost) rs in
    record {
      total_requests = length rs;
      reconciled_requests = count_if is_reconciled rs;
      total_raw_tokens = total (λ (r : FinOpsRecord). r.raw_tokens) rs;
      total_optimized_tokens = total (λ (r : FinOpsRecord). r.optimized_tokens) rs;
      total_physical_tokens_removed = total (λ (r : FinOpsRecord). r.physical_tokens_removed) rs;
      total_cached_tokens = total (λ (r : FinOpsRecord). r.cached_tokens) rs;
      total_uncached_tokens = total (λ (r : FinOpsRecord). r.uncached_tokens) rs;
      total_output_tokens = total (λ (r : FinOpsRecord). r.output_tokens) rs;
      total_baseline_cost = base;
      total_actual_cost = actual;
      total_savings = base - actual;
    }

-- `period or` the current one
unfoldable pub period_records : (ℕ → String) → String → String → Ledger → List FinOpsRecord
period_records period_of tenant_id period l =
    filter (of_period period_of period) (records_of tenant_id l)

unfoldable pub get_summary : (ℕ → String) → String → String → Ledger → Summary
get_summary period_of tenant_id period l = summarize (period_records period_of tenant_id period l)
