-- ===== src/Routing/Failover/Runs.antt =====
-- The `for` loop of `execute_with_failover` as a relation, so that what holds of a run is shown by
-- induction on it.
use jake_ai.Prelude.{
  Bool, Bool-cases, Exc, List, Option, Result, Result-cases, String, [], any, arith, err, false,
  inl, inr, leb, ok, refl, some, true, ℕ, ◌++◌, ◌<◌, ◌∷◌, ◌≡◌, ◌≤◌,
}
use jake_ai.Routing.Failover.{
  FailoverConfig, Upstream, ProviderRequest, Candidate, Attempt, Reply, answer, failure,
  ProviderError, try_candidate, try_all, request_for, resolve, same_candidate, raised,
}

abbrev pub reply_of {ℓ} : {A B : Type ℓ} → A × ℕ × B → A
reply_of (reply, total, log) = reply

abbrev pub total_of {ℓ} : {A B : Type ℓ} → A × ℕ × B → ℕ
total_of (reply, total, log) = total

abbrev pub log_of {ℓ} : {A B : Type ℓ} → A × ℕ × B → B
log_of (reply, total, log) = log

module _ {R : Type 0} (config : FailoverConfig) (up : Upstream R) (request : ProviderRequest) where
  -- the loop on a candidate, with its key, from a number of attempts
  abbrev pub trial : Candidate → Option String → ℕ → Reply R × ℕ × List (Attempt R)
  trial c key total =
      try_candidate config up c (request_for config up request c key)
        config.max_retries_per_provider total

  -- What the loop over the candidates comes to, from its variables.
  pub data Run
      : List Candidate
        → List Candidate
        → Bool
        → ℕ
        → Option ProviderError
        → Result (Reply R)
        → List (Attempt R)
        → Type 0 where
    no_more :
        (attempted : List Candidate) (executed : Bool) (total : ℕ)
        (last_error : Option ProviderError)
        → Run [] attempted executed total last_error (ok (raised last_error)) []
    duplicate :
        {c : Candidate} {rest attempted : List Candidate} {executed : Bool} {total : ℕ}
        {last_error : Option ProviderError} {reply : Result (Reply R)} {log : List (Attempt R)}
        → any (same_candidate c) attempted ≡ true
        → Run rest attempted executed total last_error reply log
        → Run (c ∷ rest) attempted executed total last_error reply log
    ceiling :
        {c : Candidate} {rest attempted : List Candidate} {executed : Bool} {total : ℕ}
        {last_error : Option ProviderError}
        → config.max_total_attempts ≤ total
        → Run (c ∷ rest) attempted executed total last_error (ok (raised last_error)) []
    unregistered :
        {c : Candidate} {rest attempted : List Candidate} {executed : Bool} {total : ℕ}
        {last_error : Option ProviderError} {reply : Result (Reply R)} {log : List (Attempt R)}
        → up.is_registered c.0 ≡ false
        → Run rest (c ∷ attempted) executed total last_error reply log
        → Run (c ∷ rest) attempted executed total last_error reply log
    unresolved :
        {c : Candidate} {rest attempted : List Candidate} {executed : Bool} {total : ℕ}
        {last_error : Option ProviderError} {e : Exc}
        → any (same_candidate c) attempted ≡ false
        → resolve config up up.credential_resolver executed request c.0 ≡ err e
        → Run (c ∷ rest) attempted executed total last_error (err e) []
    answered :
        {c : Candidate} {rest attempted : List Candidate} {executed : Bool} {total : ℕ}
        {last_error : Option ProviderError} {r : R} {key : Option String}
        → any (same_candidate c) attempted ≡ false
        → total < config.max_total_attempts
        → resolve config up up.credential_resolver executed request c.0 ≡ ok key
        → reply_of (trial c key total) ≡ answer r
        → Run
            (c ∷ rest)
            attempted
            executed
            total
            last_error
            (ok (answer r))
            (log_of (trial c key total))
    failed :
        {c : Candidate} {rest attempted : List Candidate} {executed : Bool} {total : ℕ}
        {last_error : Option ProviderError} {e : ProviderError} {reply : Result (Reply R)}
        {log : List (Attempt R)} {key : Option String}
        → any (same_candidate c) attempted ≡ false
        → total < config.max_total_attempts
        → resolve config up up.credential_resolver executed request c.0 ≡ ok key
        → reply_of (trial c key total) ≡ failure e
        → Run rest (c ∷ attempted) true (total_of (trial c key total)) (some e) reply log
        → Run
            (c ∷ rest)
            attempted
            executed
            total
            last_error
            reply
            (log_of (trial c key total) ++ log)

  module _ (c : Candidate) (rest attempted : List Candidate) (executed : Bool) (total : ℕ)
      (last_error : Option ProviderError) where
    RunsTo : Result (Reply R) × List (Attempt R) → Type 0
    RunsTo out = Run (c ∷ rest) attempted executed total last_error out.0 out.1

    tried-Run :
        (reply : Reply R) (key : Option String)
        → any (same_candidate c) attempted ≡ false
        → leb config.max_total_attempts total ≡ false
        → up.is_registered c.0 ≡ true
        → resolve config up up.credential_resolver executed request c.0 ≡ ok key
        → reply_of (trial c key total) ≡ reply
        → ((e : ProviderError)
            → Run rest
                (c ∷ attempted)
                true
                (total_of (trial c key total))
                (some e)
                (try_all config up rest request
                  (c ∷ attempted)
                  true
                  (total_of (trial c key total))
                  (some e)).0
                (try_all config up rest request
                  (c ∷ attempted)
                  true
                  (total_of (trial c key total))
                  (some e)).1)
        → RunsTo (try_all config up (c ∷ rest) request attempted executed total last_error)
    unfolding try_all RunsTo
    tried-Run (answer r) key new room known found h ih =
        rw (new, room, known, found, h, try_all) (answered new (ground arith) found h)
    tried-Run (failure e) key new room known found h ih =
        rw (new, room, known, found, h, try_all) (failed new (ground arith) found h (ih e))

  -- The function's result is what the relation says.
  pub try_all-Run :
      (candidates attempted : List Candidate) (executed : Bool) (total : ℕ)
      (last_error : Option ProviderError)
      → Run candidates attempted executed total last_error
          (try_all config up candidates request attempted executed total last_error).0
          (try_all config up candidates request attempted executed total last_error).1
  unfolding try_all RunsTo
  try_all-Run [] attempted executed total last_error = no_more attempted executed total last_error
  try_all-Run (c ∷ rest) attempted executed total last_error =
      elim (Bool-cases (any (same_candidate c) attempted)) [
        | inl seen ↦
            rw (seen, try_all)
              (duplicate seen (try_all-Run rest attempted executed total last_error))
        | inr new ↦ elim (Bool-cases (leb config.max_total_attempts total)) [
          | inl full ↦ rw (new, full, try_all) (ceiling (ground arith))
          | inr room ↦ elim (Bool-cases (up.is_registered c.0)) [
            | inl known ↦
                elim (Result-cases
                  (resolve config up up.credential_resolver executed request c.0)) [
                    | inl (e, lost) ↦ rw (new, room, known, lost, try_all) (unresolved new lost)
                    | inr (key, found) ↦
                        tried-Run c rest attempted executed total last_error
                          (reply_of (trial c key total)) key new room known found refl
                          (λ e. try_all-Run rest (c ∷ attempted) true _ (some e))
                  ]
            | inr unknown ↦
                rw (new, room, unknown, try_all)
                  (unregistered unknown
                    (try_all-Run rest (c ∷ attempted) executed total last_error))
          ]
        ]
      ]
