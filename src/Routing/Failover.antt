-- ===== src/Routing/Failover.antt =====
-- routing/failover.py, `FailoverManager.execute_with_failover`, with the error taxonomy of
-- providers/errors.py that it reads and the resolution of credentials in core/provider_credentials.py.
-- A run gives its result and the log of its attempts; it ends with the exception of the credential
-- resolver where that raises. Message texts,
-- metrics and the sleeps between retries are not modelled.
pub mod Runs
pub mod Bounds
pub mod Credentials
pub mod Outcomes
mod Tests
use jake_ai.Prelude.{
  Bool, Dict, List, Option, Result, String, [], any, err, false, if◌then◌else◌, leb, lookup, ltb,
  none, not, ok, or_else, some, str_eq, suc, true, zero, ℕ, ◌&&◌, ◌++◌, ◌+◌, ◌>>=◌, ◌∷◌,
}

pub data ErrorCategory : Type 0 where
  retryable non_retryable authentication quota context_limit provider_unavailable policy_rejected :
      ErrorCategory

pub record ProviderError : Type 0 where
  pub provider : String
  pub category : ErrorCategory
  pub is_retryable : Bool
  pub retry_after : Option ℕ

pub record FailoverConfig : Type 0 where
  pub max_retries_per_provider : ℕ
  pub max_total_attempts : ℕ
  pub retryable_categories : ErrorCategory → Bool

abbrev pub default_categories : ErrorCategory → Bool
default_categories retryable = true
default_categories provider_unavailable = true
default_categories _ = false

abbrev pub default_config : FailoverConfig
default_config = record {
  max_retries_per_provider = 1;
  max_total_attempts = 3;
  retryable_categories = default_categories;
}

-- the fields of a request that failover reads or replaces, and the prompt it passes on
pub record ProviderRequest : Type 0 where
  pub model : String
  pub prompt : String
  pub tenant_id : String
  pub api_key : Option String

-- A provider and a model.
abbrev pub Candidate : Type 0
Candidate = String × String

-- what one call of an adapter does: it responds, raises a `ProviderError`, or raises something else
pub data Outcome (R : Type 0) : Type 0 where
  responded : R → Outcome R
  provider_error : ProviderError → Outcome R
  unexpected : Outcome R

pub record Attempt (R : Type 0) : Type 0 where
  pub candidate : Candidate
  pub request : ProviderRequest
  pub outcome : Outcome R

-- what the run raises or returns
pub data Reply (R : Type 0) : Type 0 where
  answer : R → Reply R
  failure : ProviderError → Reply R

-- What the run calls: the adapters that are registered, what the n-th attempt of the run does, and what
-- credentials are found with.
pub record Upstream (R : Type 0) : Type 0 where
  pub is_registered : String → Bool
  -- `authorize_bound_effect` before the n-th attempt, for a tenant
  pub authorize : ℕ → String → Result (Unit {0})
  pub complete : ℕ → String → ProviderRequest → Outcome R
  pub credential_resolver : Option (String → String → Result (Option String))
  -- `byok_mgr.get_decrypted_key`, and `getattr(settings, name, None)`
  pub get_decrypted_key : String → String → Result (Option String)
  pub get_setting : String → Option String

-- `_PROVIDER_SETTINGS_KEYS`
abbrev pub provider_settings_keys : Dict String
provider_settings_keys =
    ("anthropic", "ANTHROPIC_API_KEY")
    ∷ ("openai", "OPENAI_API_KEY")
    ∷ ("groq", "GROQ_API_KEY")
    ∷ ("deepseek", "DEEPSEEK_API_KEY")
    ∷ ("openrouter", "OPENROUTER_API_KEY")
    ∷ ("gemini", "GEMINI_API_KEY")
    ∷ []

-- the key of the platform for a provider
unfoldable pub platform_key : {R : Type 0} → Upstream R → String → Option String
platform_key up provider = elim (lookup provider provider_settings_keys) [
  | none ↦ none
  | some name ↦ up.get_setting name
]

-- the tenant's key at the provider, or else the platform's
unfoldable pub resolve_provider_credentials :
    {R : Type 0} → Upstream R → String → String → Result (Option String)
unfolding platform_key
resolve_provider_credentials up tenant_id provider =
    up.get_decrypted_key tenant_id provider >>= λ key.
    ok (if str_eq (or_else key "") "" then platform_key up provider else key)

-- `_default_resolve_credentials`: no key where the resolution raises
unfoldable pub default_credentials : {R : Type 0} → Upstream R → String → String → Option String
unfolding resolve_provider_credentials
default_credentials up tenant_id provider =
    elim (resolve_provider_credentials up tenant_id provider) [ err e ↦ none | ok key ↦ key ]

-- the body of the `try`: an effect that is refused is one more exception of the attempt
unfoldable pub call : {R : Type 0} → Upstream R → ℕ → String → ProviderRequest → Outcome R
call up total provider req = elim (up.authorize total req.tenant_id) [
  | err e ↦ unexpected
  | ok _ ↦ up.complete total provider req
]

-- the `ProviderError` that stands for any other exception of an adapter
abbrev pub wrapped : String → ProviderError
wrapped provider = record {
  provider = provider;
  category = non_retryable;
  is_retryable = false;
  retry_after = none;
}

abbrev pub exhausted : ProviderError
exhausted = record {
  provider = "failover_manager";
  category = provider_unavailable;
  is_retryable = false;
  retry_after = none;
}

-- `candidate_key in attempted_candidates` compares both parts.
abbrev pub same_candidate : Candidate → Candidate → Bool
same_candidate (p, m) (p', m') = str_eq p p' && str_eq m m'

-- what is raised after the loop
abbrev pub raised : {R : Type 0} → Option ProviderError → Reply R
raised none = failure exhausted
raised (some e) = failure e

module _ {R : Type 0} (config : FailoverConfig) (up : Upstream R) where
  -- the error may be retried, once `total` attempts are made
  unfoldable pub may_retry : ProviderError → ℕ → Bool
  may_retry e total =
      e.is_retryable
      && config.retryable_categories e.category
      && ltb total config.max_total_attempts

  -- The `while` loop on one candidate, with the retries that are left and the attempts made so far:
  -- the reply, the attempts made then, and those of this candidate.
  unfoldable pub try_candidate :
      Candidate → ProviderRequest → ℕ → ℕ → Reply R × ℕ × List (Attempt R)
  try_candidate c req zero total =
      let outcome = call up total c.0 req in
      let log = record { candidate = c; request = req; outcome = outcome } ∷ [] in
      elim outcome [
        | responded r ↦ (answer r, total + 1, log)
        | provider_error e ↦ (failure e, total + 1, log)
        | unexpected ↦ (failure (wrapped c.0), total + 1, log)
      ]
  try_candidate c req (suc left) total =
      let outcome = call up total c.0 req in
      let attempt : Attempt R = record { candidate = c; request = req; outcome = outcome } in
      let (reply, total', log) = try_candidate c req left (total + 1) in
      elim outcome [
        | responded r ↦ (answer r, total + 1, attempt ∷ [])
        | provider_error e ↦
            if may_retry e (total + 1)
            then (reply, total', attempt ∷ log)
            else (failure e, total + 1, attempt ∷ [])
        | unexpected ↦ (failure (wrapped c.0), total + 1, attempt ∷ [])
      ]

  abbrev pub resolve :
      Option (String → String → Result (Option String))
      → Bool
      → ProviderRequest
      → String
      → Result (Option String)
  resolve (some resolver) executed request provider = resolver request.tenant_id provider
  resolve none false request provider = ok request.api_key
  resolve none true request provider = ok (default_credentials up request.tenant_id provider)

  -- the request for a candidate, with its key
  unfoldable pub request_for : ProviderRequest → Candidate → Option String → ProviderRequest
  request_for request (provider, model) key = record request { model = model; api_key = key }

  -- The `for` loop, with its variables: the candidates attempted, whether a provider was called, the
  -- attempts made and the last error.
  unfoldable pub try_all :
      List Candidate
      → ProviderRequest
      → List Candidate
      → Bool
      → ℕ
      → Option ProviderError
      → Result (Reply R) × List (Attempt R)
  try_all [] request attempted executed total last_error = (ok (raised last_error), [])
  try_all (c ∷ rest) request attempted executed total last_error =
      if any (same_candidate c) attempted
      then try_all rest request attempted executed total last_error
      else if leb config.max_total_attempts total
      then (ok (raised last_error), [])
      else (if not (up.is_registered c.0)
          then try_all rest request (c ∷ attempted) executed total last_error
          else (elim (resolve up.credential_resolver executed request c.0) [
            | err e ↦ (err e, [])
            | ok key ↦
                let (reply, total', log) =
                  try_candidate c (request_for request c key) config.max_retries_per_provider
                    total in
                elim reply [
                  | answer r ↦ (ok (answer r), log)
                  | failure e ↦
                      let (last, more) =
                        try_all rest request (c ∷ attempted) true total' (some e) in
                      (last, log ++ more)
                ]
          ]))

  -- the candidates of a routing decision: the selected one, then its fallback chain
  unfoldable pub execute_with_failover :
      ProviderRequest → Candidate → List Candidate → Result (Reply R) × List (Attempt R)
  execute_with_failover request selected fallback_chain =
      try_all (selected ∷ fallback_chain) request [] false 0 none
