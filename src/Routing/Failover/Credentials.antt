-- ===== src/Routing/Failover/Credentials.antt =====
-- Whose key a provider is called with.
use jake_ai.Prelude.{
  All, All-append, Bool, List, Option, Result, String, [], append-nil, arith, err, false, inl, inr,
  none, ok, some, suc, true, zero, ℕ, ◌++◌, ◌+◌, ◌∷◌, ◌≡◌, ◌⊎◌,
}
use jake_ai.Routing.Failover.{
  FailoverConfig, Upstream, ProviderRequest, Candidate, Attempt, try_candidate, request_for,
  ProviderError, Reply, default_credentials, resolve, execute_with_failover,
}
use jake_ai.Routing.Failover.Runs.{log_of, Run, trial, try_all-Run}

-- The key of an attempt is what `credentials` gives for a tenant at the provider of the attempt.
abbrev pub IsOwnKey : {R : Type 0} → (String → String → Option String) → String → Attempt R → Type 0
IsOwnKey credentials tenant_id a = a.request.api_key ≡ credentials tenant_id a.candidate.0

-- the candidate of the first attempt
abbrev pub IsFirst : {R : Type 0} → List (Attempt R) → Candidate → Type 0
IsFirst [] c = Unit
IsFirst (a ∷ log) c = a.candidate ≡ c

module _ {R : Type 0} (config : FailoverConfig) (up : Upstream R) (request : ProviderRequest) where
  -- every attempt of the loop on a candidate has its candidate and its request
  trial-All :
      (c : Candidate) (req : ProviderRequest) (left total : ℕ)
      → All
          (λ a. (a.candidate ≡ c) × (a.request ≡ req))
          (log_of (try_candidate config up c req left total))
  unfolding try_candidate
  trial-All c req zero total = ground arith
  trial-All c req (suc left) total = ground (arith, trial-All c req left (total + 1))

  trial-IsFirst :
      (c : Candidate) (req : ProviderRequest) (left total : ℕ) (more : List (Attempt R))
      → IsFirst (log_of (try_candidate config up c req left total) ++ more) c
  unfolding try_candidate
  trial-IsFirst c req zero total more = ground arith
  trial-IsFirst c req (suc left) total more = ground arith

  -- an attempt for the request of a candidate
  abbrev pub IsFor : Option String → Candidate → Attempt R → Type 0
  IsFor key c a = (a.candidate ≡ c) × (a.request ≡ request_for config up request c key)

  for-All {κ} :
      (P : Attempt R → Type κ) (key : Option String) (c : Candidate) (log : List (Attempt R))
      → ((a : Attempt R) → IsFor key c a → P a)
      → All (IsFor key c) log
      → All P log
  for-All P key c [] f h = _
  for-All P key c (a ∷ log) f (ha, h) = (f a ha, for-All P key c log f h)

  trial-IsOwnKey :
      (credentials : String → String → Option String) (c : Candidate) (key : Option String)
      (total : ℕ)
      → key ≡ credentials request.tenant_id c.0
      → All (IsOwnKey credentials request.tenant_id) (log_of (trial config up request c key total))
  unfolding request_for
  trial-IsOwnKey credentials c key total own =
      for-All (IsOwnKey credentials request.tenant_id) key c _ (λ a (hc, hr). rw (hc, hr) own)
        (trial-All c (request_for config up request c key) config.max_retries_per_provider total)

  -- what is found is what `credentials` says
  Gives : (String → String → Option String) → Bool → Type 0
  Gives credentials executed =
      (provider : String) (key : Option String)
      → resolve config up up.credential_resolver executed request provider ≡ ok key
      → key ≡ credentials request.tenant_id provider

  -- once a provider was called, or with a resolver, every key is the provider's own
  Run-IsOwnKey :
      {candidates attempted : List Candidate} {executed : Bool} {total : ℕ}
      {last_error : Option ProviderError} {reply : Result (Reply R)} {log : List (Attempt R)}
      (credentials : String → String → Option String)
      → Gives credentials executed
      → Gives credentials true
      → Run config up request candidates attempted executed total last_error reply log
      → All (IsOwnKey credentials request.tenant_id) log
  unfolding Gives
  Run-IsOwnKey credentials now then_on (Run.no_more attempted executed total last_error) = _
  Run-IsOwnKey credentials now then_on (Run.duplicate seen rest) =
      Run-IsOwnKey credentials now then_on rest
  Run-IsOwnKey credentials now then_on (Run.ceiling full) = _
  Run-IsOwnKey credentials now then_on (Run.unregistered unknown rest) =
      Run-IsOwnKey credentials now then_on rest
  Run-IsOwnKey credentials now then_on (Run.unresolved new lost) = _
  Run-IsOwnKey credentials now then_on
        (Run.answered {c = c} {total = t} {key = x} new room found e) =
      trial-IsOwnKey credentials c x t (now c.0 x found)
  Run-IsOwnKey credentials now then_on
        (Run.failed {c = c} {total = t} {log = log} {key = x} new room found e rest) =
      All-append (IsOwnKey credentials request.tenant_id) (log_of (trial config up request c x t))
        log (trial-IsOwnKey credentials c x t (now c.0 x found))
        (Run-IsOwnKey credentials then_on then_on rest)

  -- the key that a resolver gives, where it does not raise
  abbrev given_by : (String → String → Result (Option String)) → String → String → Option String
  given_by resolver tenant_id provider = elim (resolver tenant_id provider) [
    | err e ↦ none
    | ok key ↦ key
  ]

  resolver-Gives :
      (resolver : String → String → Result (Option String)) (executed : Bool)
      → up.credential_resolver ≡ some resolver
      → Gives (given_by resolver) executed
  unfolding Gives
  resolver-Gives resolver executed h provider key found = ground arith

  -- With a credential resolver, every attempt carries the key that the resolver gives for the tenant
  -- of the request at the provider that is called.
  resolver_gives_every_key :
      (resolver : String → String → Result (Option String)) (selected : Candidate)
      (fallback_chain : List Candidate)
      → up.credential_resolver ≡ some resolver
      → All
          (IsOwnKey (given_by resolver) request.tenant_id)
          (execute_with_failover config up request selected fallback_chain).1
  unfolding execute_with_failover
  resolver_gives_every_key resolver selected fallback_chain h =
      Run-IsOwnKey (given_by resolver) (resolver-Gives resolver false h)
        (resolver-Gives resolver true h)
        (try_all-Run config up request (selected ∷ fallback_chain) [] false 0 none)

  -- an attempt on the first candidate called, or with the provider's own key
  abbrev pub IsFirstOrOwn : List (Attempt R) → Attempt R → Type 0
  IsFirstOrOwn log a =
      IsFirst log a.candidate ⊎ IsOwnKey (default_credentials up) request.tenant_id a

  default-Gives : up.credential_resolver ≡ none → Gives (default_credentials up) true
  unfolding Gives
  default-Gives h provider key found = ground arith

  All-weaken :
      (P Q : Attempt R → Type 0) (log : List (Attempt R))
      → ((a : Attempt R) → P a → Q a)
      → All P log
      → All Q log
  All-weaken P Q [] f h = _
  All-weaken P Q (a ∷ log) f (ha, h) = (f a ha, All-weaken P Q log f h)

  trial-IsFirstOrOwn :
      (c : Candidate) (key : Option String) (total : ℕ) (more : List (Attempt R))
      → All
          (IsFirstOrOwn (log_of (trial config up request c key total) ++ more))
          (log_of (trial config up request c key total))
  trial-IsFirstOrOwn c key total more =
      let req = request_for config up request c key in
      let first = trial-IsFirst c req config.max_retries_per_provider total more in
      for-All _ key c _ (λ a (hc, hr). inl (rw hc first))
        (trial-All c req config.max_retries_per_provider total)

  Run-IsFirstOrOwn :
      {candidates attempted : List Candidate} {executed : Bool} {total : ℕ}
      {last_error : Option ProviderError} {reply : Result (Reply R)} {log : List (Attempt R)}
      → up.credential_resolver ≡ none
      → Run config up request candidates attempted executed total last_error reply log
      → All (IsFirstOrOwn log) log
  Run-IsFirstOrOwn h (Run.no_more attempted executed total last_error) = _
  Run-IsFirstOrOwn h (Run.duplicate seen rest) = Run-IsFirstOrOwn h rest
  Run-IsFirstOrOwn h (Run.ceiling full) = _
  Run-IsFirstOrOwn h (Run.unregistered unknown rest) = Run-IsFirstOrOwn h rest
  Run-IsFirstOrOwn h (Run.unresolved new lost) = _
  Run-IsFirstOrOwn h (Run.answered {c = c} {total = t} {key = x} new room found e) =
      rw (append-nil (log_of (trial config up request c x t))) at (trial-IsFirstOrOwn c x t [])
  Run-IsFirstOrOwn h (Run.failed {c = c} {total = t} {log = log} {key = x} new room found e rest) =
      All-append _ (log_of (trial config up request c x t)) log (trial-IsFirstOrOwn c x t log) (
        All-weaken (IsOwnKey (default_credentials up) request.tenant_id) _ log (λ a own. inr own)
          (Run-IsOwnKey (default_credentials up) (default-Gives h) (default-Gives h) rest))

  -- Without a credential resolver, every attempt is on the first candidate called, or carries what the
  -- default resolution gives for the tenant at the provider that is called: the tenant's stored key
  -- there, or else the platform's key for that provider, or none where looking it up raises.
  pub key_not_inherited :
      (selected : Candidate) (fallback_chain : List Candidate)
      → up.credential_resolver ≡ none
      → All
          (IsFirstOrOwn (execute_with_failover config up request selected fallback_chain).1)
          (execute_with_failover config up request selected fallback_chain).1
  unfolding execute_with_failover
  key_not_inherited selected fallback_chain h =
      Run-IsFirstOrOwn h (try_all-Run config up request (selected ∷ fallback_chain) [] false 0 none)
