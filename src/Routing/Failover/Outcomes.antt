-- ===== src/Routing/Failover/Outcomes.antt =====
-- What a run replies, against its log and against the health of the providers.
use native.Mathlib.Nat.{suc-mul}
use jake_ai.Routing.Failover.Bounds.{try_candidate-bounds}
use jake_ai.Prelude.{
  All, All-append, Bool, Bool-cases, List, Option, Option-cases, Result, String, [], any, ap, arith,
  eq_iff, err, false, get_elem?, inl, inr, none, ok, refl, some, subst, suc, sym, true, zero, ℕ,
  ◌*◌, ◌++◌, ◌+◌, ◌<◌, ◌∙◌, ◌∷◌, ◌≡◌, ◌⊎◌,
}
use jake_ai.Routing.Failover.{
  provider_error, unexpected, FailoverConfig, Upstream, ProviderRequest, Candidate, Attempt, Reply,
  answer, failure, Outcome, responded, ProviderError, try_candidate, execute_with_failover,
  request_for, call, default_credentials, resolve, same_candidate, raised, may_retry,
}
use jake_ai.Routing.Failover.Runs.{Run, try_all-Run, log_of, reply_of, trial}

abbrev pub has_failed : {R : Type 0} → Outcome R → Bool
has_failed (responded r) = false
has_failed _ = true

abbrev pub IsFailed : {R : Type 0} → Attempt R → Type 0
IsFailed a = has_failed a.outcome ≡ true

-- The log is of failures, but for the last attempt, which gave the response.
abbrev pub EndsIn : {R : Type 0} → R → List (Attempt R) → Type 0
EndsIn r [] = zero ≡ suc zero
EndsIn r (a ∷ log) = ((a.outcome ≡ responded r) × (log ≡ [])) ⊎ (IsFailed a × EndsIn r log)

-- A reply fits a log.
abbrev pub Fits : {R : Type 0} → Reply R → List (Attempt R) → Type 0
Fits (answer r) log = EndsIn r log
Fits (failure e) log = All IsFailed log

-- And so does the end of a run, which may be an exception of the credential resolver.
abbrev pub EndFits : {R : Type 0} → Result (Reply R) → List (Attempt R) → Type 0
EndFits (ok reply) log = Fits reply log
EndFits (err e) log = All IsFailed log

abbrev pub is_answer : {R : Type 0} → Result (Reply R) → Bool
is_answer (ok (answer r)) = true
is_answer _ = false

module _ {R : Type 0} (config : FailoverConfig) (up : Upstream R) where
  EndsIn-append :
      (r : R) (log more : List (Attempt R))
      → All IsFailed log
      → EndsIn r more
      → EndsIn r (log ++ more)
  EndsIn-append r [] more h e = e
  EndsIn-append r (a ∷ log) more (ha, h) e = inr (ha, EndsIn-append r log more h e)

  Fits-append :
      (reply : Reply R) (log more : List (Attempt R))
      → All IsFailed log
      → Fits reply more
      → Fits reply (log ++ more)
  Fits-append (answer r) log more h e = EndsIn-append r log more h e
  Fits-append (failure x) log more h e = All-append IsFailed log more h e

  EndFits-append :
      (reply : Result (Reply R)) (log more : List (Attempt R))
      → All IsFailed log
      → EndFits reply more
      → EndFits reply (log ++ more)
  EndFits-append (ok reply) log more h e = Fits-append reply log more h e
  EndFits-append (err x) log more h e = All-append IsFailed log more h e

  last-Fits :
      (c : Candidate) (req : ProviderRequest) (total : ℕ) (o : Outcome R)
      → call up total c.0 req ≡ o
      → Fits
          (reply_of (try_candidate config up c req zero total))
          (log_of (try_candidate config up c req zero total))
  unfolding try_candidate
  last-Fits c req total (responded r) h = rw (h, try_candidate) (inl (h, refl))
  last-Fits c req total (provider_error e) h = rw (h, try_candidate) (rw h refl, _)
  last-Fits c req total unexpected h = rw (h, try_candidate) (rw h refl, _)

  next-Fits :
      (c : Candidate) (req : ProviderRequest) (left total : ℕ) (o : Outcome R)
      → call up total c.0 req ≡ o
      → Fits
          (reply_of (try_candidate config up c req left (total + 1)))
          (log_of (try_candidate config up c req left (total + 1)))
      → Fits
          (reply_of (try_candidate config up c req (suc left) total))
          (log_of (try_candidate config up c req (suc left) total))
  unfolding try_candidate
  next-Fits c req left total (responded r) h rest = rw (h, try_candidate) (inl (h, refl))
  next-Fits c req left total unexpected h rest = rw (h, try_candidate) (rw h refl, _)
  next-Fits c req left total (provider_error e) h rest =
      elim (Bool-cases (may_retry config up e (total + 1))) [
        | inl again ↦
            rw (h, again, try_candidate)
              (Fits-append (reply_of (try_candidate config up c req left (total + 1)))
                (record { candidate = c; request = req; outcome = call up total c.0 req } ∷ [])
                (log_of (try_candidate config up c req left (total + 1))) (rw h refl, _) rest)
        | inr over ↦ rw (h, over, try_candidate) (rw h refl, _)
      ]

  trial-Fits :
      (c : Candidate) (req : ProviderRequest) (left total : ℕ)
      → Fits
          (reply_of (try_candidate config up c req left total))
          (log_of (try_candidate config up c req left total))
  trial-Fits c req zero total = last-Fits c req total (call up total c.0 req) refl
  trial-Fits c req (suc left) total =
      next-Fits c req left total (call up total c.0 req) refl (trial-Fits c req left (total + 1))

  raised-Fits : (last_error : Option ProviderError) → Fits {R = R} (raised last_error) []
  raised-Fits none = _
  raised-Fits (some e) = _

  Run-Fits :
      {request : ProviderRequest} {candidates attempted : List Candidate} {executed : Bool}
      {total : ℕ} {last_error : Option ProviderError} {reply : Result (Reply R)}
      {log : List (Attempt R)}
      → Run config up request candidates attempted executed total last_error reply log
      → EndFits reply log
  Run-Fits (Run.no_more attempted executed total last_error) = raised-Fits last_error
  Run-Fits (Run.duplicate seen rest) = Run-Fits rest
  Run-Fits (Run.ceiling {last_error = e} full) = raised-Fits e
  Run-Fits (Run.unregistered unknown rest) = Run-Fits rest
  Run-Fits (Run.unresolved new lost) = _
  Run-Fits {request = q} (Run.answered {c = c} {total = t} {key = x} new room found e) =
      subst (λ y. Fits y (log_of (trial config up q c x t))) e
        (trial-Fits c (request_for config up q c x) config.max_retries_per_provider t)
  Run-Fits {request = q}
        (Run.failed {c = c} {total = t} {reply = reply} {log = log} {key = x} new room found e
          rest) =
      EndFits-append reply (log_of (trial config up q c x t)) log
        (subst (λ y. Fits y (log_of (trial config up q c x t))) e
          (trial-Fits c (request_for config up q c x) config.max_retries_per_provider t))
        (Run-Fits rest)

  -- A run that answers gives the response of its last attempt, all the earlier ones having failed, so
  -- that no provider is called after an answer; a run that raises, be it for the credential resolver,
  -- saw only failures.
  pub execute_with_failover-Fits :
      (request : ProviderRequest) (selected : Candidate) (fallback_chain : List Candidate)
      → EndFits
          (execute_with_failover config up request selected fallback_chain).0
          (execute_with_failover config up request selected fallback_chain).1
  unfolding execute_with_failover
  execute_with_failover-Fits request selected fallback_chain =
      Run-Fits (try_all-Run config up request (selected ∷ fallback_chain) [] false 0 none)

  -- The provider is registered, and every call of it is authorized and answered.
  abbrev pub IsHealthy : Candidate → Type 0
  IsHealthy c =
      (up.is_registered c.0 ≡ true)
      × ((n : ℕ) (req : ProviderRequest) → (r : R) × (call up n c.0 req ≡ responded r))

  healthy-answers :
      (c : Candidate) (req : ProviderRequest) (left total : ℕ)
      → IsHealthy c
      → is_answer (ok (reply_of (try_candidate config up c req left total))) ≡ true
  unfolding try_candidate
  healthy-answers c req zero total (known, h) =
      let (r, e) = h total req in rw (e, try_candidate) refl
  healthy-answers c req (suc left) total (known, h) =
      let (r, e) = h total req in rw (e, try_candidate) refl

  same-eq : (c d : Candidate) → same_candidate c d ≡ true → c ≡ d
  same-eq (p, m) (p', m') h = ground (arith, eq_iff p p', eq_iff m m')

  -- a healthy candidate cannot have failed
  healthy-no_failure :
      {e : ProviderError} (h c : Candidate) (request : ProviderRequest) (key : Option String)
      (total : ℕ)
      → IsHealthy h
      → c ≡ h
      → reply_of (trial config up request c key total) ≡ failure e
      → true ≡ false
  healthy-no_failure h c request key total fine same failed =
      let healthy = subst IsHealthy (sym same) fine in
      let answers =
        healthy-answers c (request_for config up request c key) config.max_retries_per_provider
          total healthy in
      sym answers ∙ ap (λ reply. is_answer (ok reply)) failed

  -- credentials are found, one way or the other, for whatever provider
  Finds : ProviderRequest → Bool → Type 0
  Finds request executed =
      (provider : String)
      → (key : Option String) × (resolve config up up.credential_resolver executed request provider
          ≡ ok key)

  -- The credential resolver, if there is one, raises for no provider.
  abbrev pub IsResolving : ProviderRequest → Type 0
  IsResolving request =
      (resolver : String → String → Result (Option String)) (provider : String)
      → up.credential_resolver ≡ some resolver
      → (key : Option String) × (resolver request.tenant_id provider ≡ ok key)

  IsResolving-Finds :
      (request : ProviderRequest) (executed : Bool) → IsResolving request → Finds request executed
  unfolding Finds
  IsResolving-Finds request executed h provider = elim (Option-cases up.credential_resolver) [
    | inr (resolver, given) ↦ rw given (h resolver provider given)
    | inl missing ↦ elim (Bool-cases executed) [
      | inl after ↦ (default_credentials up request.tenant_id provider, rw (missing, after) refl)
      | inr before ↦ (request.api_key, rw (missing, before) refl)
    ]
  ]

  -- a healthy candidate that was not attempted, some way down the chain, is reached
  Run-answers :
      {request : ProviderRequest} {candidates attempted : List Candidate} {executed : Bool}
      {total : ℕ} {last_error : Option ProviderError} {reply : Result (Reply R)}
      {log : List (Attempt R)} (h : Candidate) (k : ℕ)
      → IsHealthy h
      → ((executed : Bool) → Finds request executed)
      → Run config up request candidates attempted executed total last_error reply log
      → get_elem? candidates k ≡ some h
      → any (same_candidate h) attempted ≡ false
      → total + k * (config.max_retries_per_provider + 1) < config.max_total_attempts
      → is_answer reply ≡ true
  unfolding Finds
  Run-answers h k fine keys (Run.no_more attempted executed total last_error) place new room = cc
  Run-answers h zero fine keys (Run.duplicate {c = c} {attempted = cs} seen rest) place new room =
      cc
  Run-answers h (suc k) fine keys (Run.duplicate seen rest) place new room =
      Run-answers h k fine keys rest place new
        (omega (arith, suc-mul k (config.max_retries_per_provider + 1)))
  Run-answers h k fine keys (Run.ceiling full) place new room = ground arith
  Run-answers h zero fine keys (Run.unregistered unknown rest) place new room = cc
  Run-answers h (suc k) fine keys (Run.unregistered {c = c} unknown rest) place new room =
      elim (Bool-cases (same_candidate h c)) [
        | inl same ↦ let e = same-eq h c same in cc
        | inr other ↦
            Run-answers h k fine keys rest place (rw other new)
              (omega (arith, suc-mul k (config.max_retries_per_provider + 1)))
      ]
  Run-answers h k fine keys (Run.unresolved {c = c} {executed = x} new' lost) place new room =
      let (key, found) = keys x c.0 in cc
  Run-answers h k fine keys (Run.answered new' room' found e) place new room = refl
  Run-answers {request = q} h zero fine keys
        (Run.failed {c = c} {total = t} {key = x} new' room' found e rest) place new room =
      let same : c ≡ h = cc in
      let wrong : true ≡ false = healthy-no_failure h c q x t fine same e in cc
  Run-answers {request = q} h (suc k) fine keys
        (Run.failed {c = c} {total = t} {key = x} new' room' found e rest) place new room =
      elim (Bool-cases (same_candidate h c)) [
        | inl same ↦
            let wrong : true ≡ false =
              healthy-no_failure h c q x t fine (sym (same-eq h c same)) e in
            cc
        | inr other ↦
            let (counted, within, few) =
              try_candidate-bounds config up c (request_for config up q c x)
                config.max_retries_per_provider t room' in
            Run-answers h k fine keys rest place (rw other new)
              (omega (arith, suc-mul k (config.max_retries_per_provider + 1)))
      ]

  -- Failover reaches a healthy provider: if every call of a registered candidate of the chain is
  -- authorized and answered, the credential resolver, if there is one, raises for no provider, and the
  -- total ceiling leaves room for the candidates before it with all their retries, the run gives an
  -- answer.
  pub failover_reaches_healthy :
      (request : ProviderRequest) (selected : Candidate) (fallback_chain : List Candidate)
      (h : Candidate) (k : ℕ)
      → IsHealthy h
      → IsResolving request
      → get_elem? (selected ∷ fallback_chain) k ≡ some h
      → k * (config.max_retries_per_provider + 1) < config.max_total_attempts
      → is_answer (execute_with_failover config up request selected fallback_chain).0 ≡ true
  unfolding execute_with_failover
  failover_reaches_healthy request selected fallback_chain h k fine resolving place room =
      Run-answers h k fine (λ executed. IsResolving-Finds request executed resolving)
        (try_all-Run config up request (selected ∷ fallback_chain) [] false 0 none) place refl
        (omega arith)
