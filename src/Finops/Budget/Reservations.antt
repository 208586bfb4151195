-- ===== src/Finops/Budget/Reservations.antt =====
-- What reserving ahead of inference promises.
use jake_ai.Prelude.{
  List, Option, Result, String, [], arith, err, false, inl, inr, is_some, lookup-insert_self, none,
  ok, pos, pos_part, refl, some, str_eq_refl, ℕ, ℤ, ◌+◌, ◌∷◌, ◌≡◌, ◌≤◌, ◌⊎◌,
}
use jake_ai.Finops.Budget.{
  Budgets, QuotaReservation, Reply, get_token_quota, get_dollar_budget, get_tokens_used,
  get_dollars_spent, check_budget, reserve_budget, write_usage, exceeds, dollar_stop, usage_key,
  is_negative, finalize_reservation,
}

module _ (tenant_id period : String) (tokens cost : ℕ) (m : Budgets) where
  pub used-write_usage :
      get_tokens_used tenant_id period (write_usage tenant_id period tokens cost m) ≡ tokens
  unfolding get_tokens_used write_usage
  used-write_usage = rw (lookup-insert_self (usage_key tenant_id period) tokens m.token_usage)

  pub spent-write_usage :
      get_dollars_spent tenant_id period (write_usage tenant_id period tokens cost m) ≡ cost
  unfolding get_dollars_spent write_usage
  spent-write_usage = rw (lookup-insert_self (usage_key tenant_id period) cost m.dollar_spent)

  quota-write_usage :
      get_token_quota tenant_id (write_usage tenant_id period tokens cost m)
      ≡ get_token_quota tenant_id m
  unfolding get_token_quota write_usage
  quota-write_usage = refl

  dollars-write_usage :
      get_dollar_budget tenant_id (write_usage tenant_id period tokens cost m)
      ≡ get_dollar_budget tenant_id m
  unfolding get_dollar_budget write_usage
  dollars-write_usage = refl

-- the reservation that a reply grants
abbrev pub granted : Result Reply → Option QuotaReservation
granted (ok (r, _)) = r
granted (err e) = none

-- what it takes from the budget
abbrev pub granted_tokens : Option QuotaReservation → ℕ
granted_tokens none = 0
granted_tokens (some r) = r.reserved_tokens

abbrev pub granted_cost : Option QuotaReservation → ℕ
granted_cost none = 0
granted_cost (some r) = r.reserved_cost

-- Usage is within both limits.
abbrev pub IsWithin : String → String → Budgets → Type 0
IsWithin tenant_id period m =
    (get_tokens_used tenant_id period m ≤ get_token_quota tenant_id m)
    × ((limit : ℕ)
        → get_dollar_budget tenant_id m ≡ some limit
        → get_dollars_spent tenant_id period m ≤ limit)

module _ (id tenant_id period : String) (tokens cost : ℤ) (m : Budgets) where
  -- A call either grants, within the limits, and counts the estimates at once, or leaves the budgets
  -- as they are.
  pub reserve_budget-cases :
      ((granted (reserve_budget id period tenant_id tokens cost m).0 ≡ none)
        × ((reserve_budget id period tenant_id tokens cost m).1 ≡ m))
      ⊎ ((exceeds (get_tokens_used tenant_id period m) tokens (get_token_quota tenant_id m) ≡ false)
          × (dollar_stop (get_dollars_spent tenant_id period m) cost (get_dollar_budget tenant_id m)
              ≡ none)
          × (is_negative tokens ≡ false)
          × (is_negative cost ≡ false)
          × (granted (reserve_budget id period tenant_id tokens cost m).0
              ≡ some (record {
                tenant_id = tenant_id;
                period = period;
                reserved_tokens = pos_part tokens;
                reserved_cost = pos_part cost;
                reservation_id = id;
              }))
          × ((reserve_budget id period tenant_id tokens cost m).1
              ≡ write_usage tenant_id period
                  (get_tokens_used tenant_id period m + pos_part tokens)
                  (get_dollars_spent tenant_id period m + pos_part cost)
                  m))
  unfolding reserve_budget
  reserve_budget-cases = ground arith

-- Reserving and checking agree: for estimates that are not negative, a reservation is granted exactly
-- when the check allows the request.
reserve_iff_checked :
    (id period tenant_id : String) (tokens cost : ℕ) (m : Budgets)
    → is_some (granted (reserve_budget id period tenant_id (pos tokens) (pos cost) m).0)
      ≡ (check_budget period tenant_id (pos tokens) (pos cost) m).0
unfolding reserve_budget check_budget
reserve_iff_checked id period tenant_id tokens cost m = ground arith

-- A request: the id drawn for its reservation, and its estimates.
abbrev pub Request : Type 0
Request = String × ℤ × ℤ

-- The requests of a tenant in a period, served in some order: the budgets after them, and the
-- tokens that they were granted together.
unfoldable pub reserve_all : String → String → List Request → Budgets → ℕ × Budgets
reserve_all tenant_id period [] m = (0, m)
reserve_all tenant_id period ((id, tokens, cost) ∷ requests) m =
    let (reply, m') = reserve_budget id period tenant_id tokens cost m in
    let (rest, m'') = reserve_all tenant_id period requests m' in
    (granted_tokens (granted reply) + rest, m'')

module _ (tenant_id period : String) (tokens cost : ℤ) (m : Budgets) where
  -- The counters after a granted request are within the limits.
  grown-IsWithin :
      exceeds (get_tokens_used tenant_id period m) tokens (get_token_quota tenant_id m) ≡ false
      → dollar_stop (get_dollars_spent tenant_id period m) cost (get_dollar_budget tenant_id m)
        ≡ none
      → is_negative tokens ≡ false
      → is_negative cost ≡ false
      → IsWithin tenant_id period (
          write_usage tenant_id period
            (get_tokens_used tenant_id period m + pos_part tokens)
            (get_dollars_spent tenant_id period m + pos_part cost)
            m)
  grown-IsWithin fits pays nt nc =
      let used = get_tokens_used tenant_id period m + pos_part tokens in
      let spent = get_dollars_spent tenant_id period m + pos_part cost in
      rw
        (
          used-write_usage tenant_id period used spent m,
          spent-write_usage tenant_id period used spent m,
          quota-write_usage tenant_id period used spent m,
          dollars-write_usage tenant_id period used spent m,
        )
        (ground arith, (λ limit h. ground arith))

reserve-IsWithin :
    (id tenant_id period : String) (tokens cost : ℤ) (m : Budgets)
    → IsWithin tenant_id period m
    → IsWithin tenant_id period (reserve_budget id period tenant_id tokens cost m).1
      × (get_tokens_used tenant_id period (reserve_budget id period tenant_id tokens cost m).1
          ≡ get_tokens_used tenant_id period m
            + granted_tokens (granted (reserve_budget id period tenant_id tokens cost m).0))
reserve-IsWithin id tenant_id period tokens cost m h =
    elim (reserve_budget-cases id tenant_id period tokens cost m) [
      | inl (refused, same) ↦ rw (refused, same) (h, omega arith)
      | inr (fits, pays, nt, nc, reply, state) ↦
          rw (reply, state)
            (
              grown-IsWithin tenant_id period tokens cost m fits pays nt nc,
              used-write_usage tenant_id period
                  (get_tokens_used tenant_id period m + pos_part tokens)
                  (get_dollars_spent tenant_id period m + pos_part cost) m,
            )
    ]

-- A shared budget is never oversubscribed: from usage within the limits, any requests of the tenant,
-- served one after the other in any order, leave usage within both limits, and it has grown by exactly
-- the tokens that were granted.
pub reserve_all-IsWithin :
    (tenant_id period : String) (requests : List Request) (m : Budgets)
    → IsWithin tenant_id period m
    → IsWithin tenant_id period (reserve_all tenant_id period requests m).1
      × (get_tokens_used tenant_id period (reserve_all tenant_id period requests m).1
          ≡ get_tokens_used tenant_id period m + (reserve_all tenant_id period requests m).0)
unfolding reserve_all
reserve_all-IsWithin tenant_id period [] m h = (h, omega arith)
reserve_all-IsWithin tenant_id period ((id, tokens, cost) ∷ requests) m h =
    let m' = (reserve_budget id period tenant_id tokens cost m).1 in
    let (within, grown) = reserve-IsWithin id tenant_id period tokens cost m h in
    let (rest, total) = reserve_all-IsWithin tenant_id period requests m' within in
    (rest, omega arith)

-- Finalizing a reservation again, with whatever usage and in whatever period, changes nothing after a
-- finalization that went through: there is no double refund and no double charge.
pub finalize_once :
    (now later : String) (r : QuotaReservation) (tokens cost tokens' cost' : ℤ) (m : Budgets)
    → is_negative tokens ≡ false
    → is_negative cost ≡ false
    → (finalize_reservation later r tokens' cost' (finalize_reservation now r tokens cost m).1).1
      ≡ (finalize_reservation now r tokens cost m).1
unfolding finalize_reservation write_usage
finalize_once now later r tokens cost tokens' cost' m nt nc =
    ground (arith, str_eq_refl r.reservation_id)
