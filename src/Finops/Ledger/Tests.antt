-- ===== src/Finops/Ledger/Tests.antt =====
-- Three records of two tenants in a ring of one.
use jake_ai.Prelude.{All, List, String, [], last_n, none, pos, str, ◌∷◌, ◌≡◌}
use jake_ai.Finops.Attribution.{SavingsAttribution}
use jake_ai.Finops.Ledger.{FinOpsRecord, estimated, records_of, get_records}
use jake_ai.Finops.Ledger.Ring.{record_all, log_of, ledger_is_end_of_log}
use jake_ai.Finops.Ledger.Secrets.{IsClean, pages-IsClean}

abbrev no_savings : SavingsAttribution
no_savings = record {
  cache_hit = 0;
  physical_reduction = 0;
  provider_cache = pos 0;
  model_routing = 0;
  avoided_retries = 0;
  total_savings = 0;
}

abbrev inference : String → String → FinOpsRecord
inference request_id tenant_id = record {
  request_id = request_id;
  tenant_id = tenant_id;
  provider = "openai";
  model = "gpt-4o";
  timestamp = 5;
  estimated_local_tokens = 100;
  raw_tokens = 100;
  optimized_tokens = 100;
  physical_tokens_removed = 0;
  cached_tokens = 0;
  uncached_tokens = 100;
  output_tokens = 10;
  baseline_cost = 350;
  effective_cost = 350;
  savings_attribution = no_savings;
  reconciliation_status = estimated;
  variance_tokens = none;
  variance_cost = none;
  metadata = ("api_key", str "sk") ∷ ("route", str "chat") ∷ [];
}

abbrev inferences : List FinOpsRecord
inferences = inference "r1" "acme" ∷ inference "r2" "other" ∷ inference "r3" "acme" ∷ []

ledger_is_end_of_log_example :
    records_of "acme" (record_all inferences (record { max_records_per_tenant = 1; records = [] }))
    ≡ last_n 1 (log_of "acme" inferences)
ledger_is_end_of_log_example = ledger_is_end_of_log "acme" inferences 1

pages-IsClean_example : All (IsClean "acme") (
    get_records
      (λ t. "2026-11")
      "acme"
      none
      50
      0
      (record_all inferences (record { max_records_per_tenant = 1; records = [] })))
pages-IsClean_example = pages-IsClean (λ t. "2026-11") "acme" none 50 0 1 inferences
