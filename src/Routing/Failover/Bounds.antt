-- ===== src/Routing/Failover/Bounds.antt =====
-- The retries and the fallback chain are bounded, however the providers behave.
use jake_ai.Prelude.{
  Bool, Bool-cases, List, Option, Result, String, [], any, arith, count_if, count_if-append, eq_iff,
  false, if◌then◌else◌, inl, inr, length, length-append, none, refl, suc, true, zero, ℕ, ◌+◌, ◌<◌,
  ◌∷◌, ◌≡◌, ◌≤◌,
}
use jake_ai.Routing.Failover.{
  FailoverConfig, Upstream, ProviderRequest, Candidate, Attempt, Reply, ProviderError, may_retry,
  try_candidate, execute_with_failover, same_candidate, request_for,
}
use jake_ai.Routing.Failover.Runs.{Run, try_all-Run, total_of, log_of, trial}

-- the attempts on one candidate
unfoldable pub attempts_on : {R : Type 0} → Candidate → List (Attempt R) → ℕ
attempts_on c log = count_if (λ a. same_candidate c a.candidate) log

module _ {R : Type 0} (config : FailoverConfig) (up : Upstream R) where
  -- one candidate
  pub try_candidate-bounds :
      (c : Candidate) (req : ProviderRequest) (left total : ℕ)
      → total < config.max_total_attempts
      → (length (log_of (try_candidate config up c req left total)) + total
          ≡ total_of (try_candidate config up c req left total))
        × (total_of (try_candidate config up c req left total) ≤ config.max_total_attempts)
        × (length (log_of (try_candidate config up c req left total)) ≤ left + 1)
  unfolding try_candidate may_retry
  try_candidate-bounds c req zero total h = ground arith
  try_candidate-bounds c req (suc left) total h =
      ground (arith, try_candidate-bounds c req left (total + 1))

  Run-bounds :
      {request : ProviderRequest} {candidates attempted : List Candidate} {executed : Bool}
      {total : ℕ} {last_error : Option ProviderError} {reply : Result (Reply R)}
      {log : List (Attempt R)}
      → Run config up request candidates attempted executed total last_error reply log
      → total ≤ config.max_total_attempts
      → length log + total ≤ config.max_total_attempts
  Run-bounds (Run.no_more attempted executed total last_error) h = omega arith
  Run-bounds (Run.duplicate seen rest) h = Run-bounds rest h
  Run-bounds (Run.ceiling full) h = omega arith
  Run-bounds (Run.unregistered unknown rest) h = Run-bounds rest h
  Run-bounds (Run.unresolved new lost) h = omega arith
  Run-bounds {request = q} (Run.answered {c = c} {total = t} {key = x} new room found e) h = omega (
    arith,
    try_candidate-bounds c (request_for config up q c x) config.max_retries_per_provider t room,
  )
  Run-bounds {request = q}
        (Run.failed {c = c} {total = t} {log = log} {key = x} new room found e rest) h =
      let (same, within, few) =
        try_candidate-bounds c (request_for config up q c x) config.max_retries_per_provider t
          room in
      omega (arith, length-append (log_of (trial config up q c x t)) log, Run-bounds rest within)

  -- A run makes no more attempts than the total ceiling, whatever the providers do and however long
  -- the fallback chain is.
  pub attempts_bounded :
      (request : ProviderRequest) (selected : Candidate) (fallback_chain : List Candidate)
      → length (execute_with_failover config up request selected fallback_chain).1
        ≤ config.max_total_attempts
  unfolding execute_with_failover
  attempts_bounded request selected fallback_chain = omega (
    arith,
    Run-bounds (try_all-Run config up request (selected ∷ fallback_chain) [] false 0 none) zero_le,
  )
    where
      zero_le : 0 ≤ config.max_total_attempts
      zero_le = omega arith

  -- a list has two equal candidates or neither
  any-same_candidate :
      (d c : Candidate) (cs : List Candidate)
      → same_candidate d c ≡ true
      → any (same_candidate d) cs ≡ any (same_candidate c) cs
  any-same_candidate d c [] h = refl
  any-same_candidate (p, m) (p', m') ((p'', m'') ∷ cs) h = ground (
    arith,
    eq_iff p p',
    eq_iff m m',
    eq_iff p p'',
    eq_iff m m'',
    eq_iff p' p'',
    eq_iff m' m'',
    any-same_candidate (p, m) (p', m') cs h,
  )

  -- the log of one candidate is of that candidate
  attempts_on-trial :
      (d c : Candidate) (req : ProviderRequest) (left total : ℕ)
      → attempts_on d (log_of (try_candidate config up c req left total)) ≡ (
          if same_candidate d c
          then length (log_of (try_candidate config up c req left total))
          else 0)
  unfolding try_candidate attempts_on
  attempts_on-trial d c req zero total = ground arith
  attempts_on-trial d c req (suc left) total =
      ground (arith, attempts_on-trial d c req left (total + 1))

  -- the loop on a candidate adds to its own attempts only, and is on a new candidate
  trial-attempts_on :
      (request : ProviderRequest) (d c : Candidate) (attempted : List Candidate)
      (key : Option String) (total : ℕ)
      → any (same_candidate c) attempted ≡ false
      → total < config.max_total_attempts
      → attempts_on d (log_of (trial config up request c key total)) ≤ (
          if any (same_candidate d) attempted
          then 0
          else (if same_candidate d c then config.max_retries_per_provider + 1 else 0))
  trial-attempts_on request d c attempted key total new room =
      let req = request_for config up request c key in
      let (same, within, few) =
        try_candidate-bounds c req config.max_retries_per_provider total room in
      rw (attempts_on-trial d c req config.max_retries_per_provider total)
        (elim (Bool-cases (same_candidate d c)) [
          | inl equal ↦ rw (equal, any-same_candidate d c attempted equal, new) few
          | inr other ↦ rw other (omega arith)
        ])

  -- A candidate that was attempted is left alone, and another gets the retries that it may have.
  Run-attempts_on :
      {request : ProviderRequest} {candidates attempted : List Candidate} {executed : Bool}
      {total : ℕ} {last_error : Option ProviderError} {reply : Result (Reply R)}
      {log : List (Attempt R)} (d : Candidate)
      → Run config up request candidates attempted executed total last_error reply log
      → attempts_on d log
        ≤ (if any (same_candidate d) attempted then 0 else config.max_retries_per_provider + 1)
  unfolding attempts_on
  Run-attempts_on d (Run.no_more attempted executed total last_error) = ground arith
  Run-attempts_on d (Run.duplicate seen rest) = Run-attempts_on d rest
  Run-attempts_on d (Run.ceiling full) = ground arith
  Run-attempts_on d (Run.unregistered {c = c} unknown rest) = ground (arith, Run-attempts_on d rest)
  Run-attempts_on d (Run.unresolved new lost) = ground arith
  Run-attempts_on {request = q} {attempted = cs} d
        (Run.answered {c = c} {total = t} {key = x} new room found e) =
      ground (arith, trial-attempts_on q d c cs x t new room)
  Run-attempts_on {request = q} {attempted = cs} d
        (Run.failed {c = c} {total = t} {log = log} {key = x} new room found e rest) =
      ground (
        arith,
        count_if-append (λ a. same_candidate d a.candidate) (log_of (trial config up q c x t)) log,
        trial-attempts_on q d c cs x t new room,
        Run-attempts_on d rest,
      )

  -- A run makes no more attempts on a candidate than one and its retries, even if the fallback chain
  -- names the candidate again and again.
  pub attempts_on_candidate_bounded :
      (request : ProviderRequest) (selected : Candidate) (fallback_chain : List Candidate)
      (d : Candidate)
      → attempts_on d (execute_with_failover config up request selected fallback_chain).1
        ≤ config.max_retries_per_provider + 1
  unfolding execute_with_failover
  attempts_on_candidate_bounded request selected fallback_chain d =
      Run-attempts_on d (try_all-Run config up request (selected ∷ fallback_chain) [] false 0 none)
