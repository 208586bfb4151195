-- ===== src/Routing/Failover/Tests.antt =====
-- A chain whose first provider is down.
use jake_ai.Prelude.{
  All, List, Option, Result, String, [], arith, err, if◌then◌else◌, lookup, none, ok,
  permission_error, refl, some, str_eq, true, ℕ, ◌+◌, ◌∷◌, ◌≡◌, ◌≤◌,
}
use jake_ai.Routing.Failover.{
  Upstream, ProviderRequest, Candidate, Outcome, responded, provider_error, default_config,
  retryable, execute_with_failover, default_credentials, try_all, resolve_provider_credentials,
  platform_key,
}
use jake_ai.Routing.Failover.Bounds.{attempts_on, attempts_on_candidate_bounded}
use jake_ai.Routing.Failover.Credentials.{IsFirstOrOwn, key_not_inherited}
use jake_ai.Routing.Failover.Outcomes.{
  EndFits, is_answer, IsHealthy, execute_with_failover-Fits, failover_reaches_healthy,
}

abbrev complete : ℕ → String → ProviderRequest → Outcome ℕ
complete n provider req =
    if str_eq provider "gemini"
    then responded n
    else provider_error (record {
      provider = provider;
      category = retryable;
      is_retryable = true;
      retry_after = none;
    })

abbrev own_key : String → String → Result (Option String)
own_key tenant_id provider = ok (some provider)

abbrev plain : Upstream ℕ
plain = record {
  is_registered = λ provider. true;
  complete = complete;
  authorize = λ n tenant_id. ok tt;
  credential_resolver = none;
  get_decrypted_key = own_key;
  get_setting = λ name. none;
}

abbrev resolving : Upstream ℕ
resolving = record plain { credential_resolver = some own_key }

abbrev request : ProviderRequest
request = record { model = "any"; prompt = "hi"; tenant_id = "acme"; api_key = some "sk" }

abbrev first : Candidate
first = ("openai", "gpt")

abbrev chain : List Candidate
chain = ("openai", "gpt") ∷ ("gemini", "pro") ∷ []

attempts_on_candidate_bounded_example :
    attempts_on first (execute_with_failover default_config plain request first chain).1 ≤ 1 + 1
attempts_on_candidate_bounded_example =
    attempts_on_candidate_bounded default_config plain request first chain first

key_not_inherited_example :
    All
      (IsFirstOrOwn default_config plain request
        (execute_with_failover default_config plain request first chain).1)
      (execute_with_failover default_config plain request first chain).1
key_not_inherited_example = key_not_inherited default_config plain request first chain refl

execute_with_failover-Fits_example :
    EndFits
      (execute_with_failover default_config plain request first chain).0
      (execute_with_failover default_config plain request first chain).1
execute_with_failover-Fits_example =
    execute_with_failover-Fits default_config plain request first chain

gemini-IsHealthy : IsHealthy default_config plain ("gemini", "pro")
unfolding jake_ai.Routing.Failover.call
gemini-IsHealthy = (refl, (λ n req. (n, refl)))

failover_reaches_healthy_example :
    is_answer (execute_with_failover default_config plain request first (("gemini", "pro") ∷ [])).0
    ≡ true
failover_reaches_healthy_example =
    failover_reaches_healthy default_config plain request first (("gemini", "pro") ∷ [])
      ("gemini", "pro") 1 gemini-IsHealthy (λ resolver provider h. cc) refl (ground arith)

-- what the default resolution gives: the tenant's own key, the platform's, or none
abbrev platform : Upstream ℕ
platform = record plain {
  get_decrypted_key = λ tenant_id provider. ok (some "");
  get_setting = λ name. some name;
}

platform_is_asked : default_credentials platform "acme" "groq" ≡ some "GROQ_API_KEY"
unfolding default_credentials resolve_provider_credentials platform_key lookup
platform_is_asked = refl

-- a resolver that raises ends the run, before a provider that would answer
abbrev revoked : Upstream ℕ
revoked = record plain { credential_resolver = some (λ tenant_id provider. err permission_error) }

resolver_ends_run :
    execute_with_failover default_config revoked request ("gemini", "pro") []
    ≡ (err permission_error, [])
unfolding execute_with_failover try_all
resolver_ends_run = refl
