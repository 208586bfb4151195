-- ===== src/Finops/Budget.antt =====
-- finops/budget.py, the in-memory mode of `FinOpsBudgetManager` (no Redis client). Dollars are whole
-- micro-dollars, the sixth decimal that the source rounds to; a warning threshold is in basis points.
-- The billing period that the clock gives is an argument. A lock makes each method one step.
pub mod Status
pub mod Reservations
pub mod Settlement
mod Tests
use Prim.Native.String.{◌++◌ as concat}
use jake_ai.Prelude.{
  Bool, Dict, List, Option, Result, String, add_floor, err, false, if◌then◌else◌, insert, leb,
  lookup, ltb, mem_str, neg_part, negsuc, none, ok, or_else, pos, pos_part, some, str_eq, sub_ℕ,
  true, value_error, ℕ, ℤ, ◌*◌, ◌+◌, ◌>>=◌, ◌||◌, ◌∷◌,
}

abbrev default_monthly_token_quota : ℕ
default_monthly_token_quota = 1000000

abbrev default_warning_threshold : ℕ
default_warning_threshold = 8000

pub record QuotaReservation : Type 0 where
  pub tenant_id : String
  pub period : String
  pub reserved_tokens : ℕ
  pub reserved_cost : ℕ
  pub reservation_id : String

-- `FinOpsBudgetManager`: limits by tenant, usage by tenant and period
pub record Budgets : Type 0 where
  pub token_limits : Dict ℕ
  pub dollar_limits : Dict ℕ
  pub warning_thresholds : Dict ℕ
  pub token_usage : Dict ℕ
  pub dollar_spent : Dict ℕ
  pub tokens_saved : Dict ℕ
  pub finalized : List String

-- a message to the caller
pub data Notice : Type 0 where
  quota_exceeded : ℕ → ℕ → Notice
  dollars_exceeded : ℕ → ℕ → Notice
  soft_warning : Notice

unfoldable pub usage_key : String → String → String
usage_key tenant_id period = concat tenant_id (concat ":" period)

unfoldable pub get_token_quota : String → Budgets → ℕ
get_token_quota tenant_id m = or_else (lookup tenant_id m.token_limits) default_monthly_token_quota

unfoldable pub get_dollar_budget : String → Budgets → Option ℕ
get_dollar_budget tenant_id m = lookup tenant_id m.dollar_limits

unfoldable pub get_warning_threshold : String → Budgets → ℕ
get_warning_threshold tenant_id m =
    or_else (lookup tenant_id m.warning_thresholds) default_warning_threshold

unfoldable pub get_tokens_used : String → String → Budgets → ℕ
get_tokens_used tenant_id period m = or_else (lookup (usage_key tenant_id period) m.token_usage) 0

unfoldable pub get_dollars_spent : String → String → Budgets → ℕ
get_dollars_spent tenant_id period m =
    or_else (lookup (usage_key tenant_id period) m.dollar_spent) 0

-- `used + estimated > limit`
abbrev pub exceeds : ℕ → ℤ → ℕ → Bool
exceeds used estimated limit = ltb (limit + neg_part estimated) (used + pos_part estimated)

-- `used / limit >= threshold`, a limit of 0 counting as used up
abbrev pub token_warning : ℕ → ℕ → ℕ → Bool
token_warning used limit threshold =
    if ltb 0 limit then leb (threshold * limit) (used * 10000) else leb threshold 10000

-- the same for dollars, where no limit and a limit of 0 count as a ratio of 0
abbrev pub dollar_warning : ℕ → Option ℕ → ℕ → Bool
dollar_warning spent none threshold = leb threshold 0
dollar_warning spent (some limit) threshold =
    if ltb 0 limit then leb (threshold * limit) (spent * 10000) else leb threshold 0

-- the hard stop on dollars, where a limit is set
abbrev pub dollar_stop : ℕ → ℤ → Option ℕ → Option Notice
dollar_stop spent estimated none = none
dollar_stop spent estimated (some limit) =
    if exceeds spent estimated limit then some (dollars_exceeded spent limit) else none

unfoldable pub check_budget : String → String → ℤ → ℤ → Budgets → Bool × Option Notice
check_budget period tenant_id estimated_tokens estimated_cost m =
    let limit = get_token_quota tenant_id m in
    let used = get_tokens_used tenant_id period m in
    let dollar_limit = get_dollar_budget tenant_id m in
    let spent = get_dollars_spent tenant_id period m in
    let threshold = get_warning_threshold tenant_id m in
    if exceeds used estimated_tokens limit
    then (false, some (quota_exceeded used limit))
    else (elim (dollar_stop spent estimated_cost dollar_limit) [
      | some notice ↦ (false, some notice)
      | none ↦
          if token_warning used limit threshold || dollar_warning spent dollar_limit threshold
          then (true, some soft_warning)
          else (true, none)
    ])

abbrev pub is_negative : ℤ → Bool
is_negative (pos _) = false
is_negative (negsuc _) = true

-- the two usage counters of a tenant in a period
unfoldable pub write_usage : String → String → ℕ → ℕ → Budgets → Budgets
write_usage tenant_id period tokens cost m = record m {
  token_usage = insert (usage_key tenant_id period) tokens m.token_usage;
  dollar_spent = insert (usage_key tenant_id period) cost m.dollar_spent;
}

abbrev pub Reply : Type 0
Reply = Option QuotaReservation × Option Notice

-- `reservation_id` is what `uuid` draws.
unfoldable pub reserve_budget : String → String → String → ℤ → ℤ → Budgets → Result Reply × Budgets
reserve_budget reservation_id period tenant_id estimated_tokens estimated_cost m =
    if is_negative estimated_tokens || is_negative estimated_cost
    then (err value_error, m)
    else (let limit = get_token_quota tenant_id m in
        let used = get_tokens_used tenant_id period m in
        let spent = get_dollars_spent tenant_id period m in
        if exceeds used estimated_tokens limit
        then (ok (none, some (quota_exceeded used limit)), m)
        else elim (dollar_stop spent estimated_cost (get_dollar_budget tenant_id m)) [
          | some notice ↦ (ok (none, some notice), m)
          | none ↦ (
            ok (
              some (record {
                tenant_id = tenant_id;
                period = period;
                reserved_tokens = pos_part estimated_tokens;
                reserved_cost = pos_part estimated_cost;
                reservation_id = reservation_id;
              }),
              none,
            ),
            write_usage tenant_id period (used + pos_part estimated_tokens)
                (spent + pos_part estimated_cost) m,
          )
        ])

-- `reservation.period or self._get_period_key()`
abbrev pub period_of : String → QuotaReservation → String
period_of now r = if str_eq r.period "" then now else r.period

unfoldable pub finalize_reservation :
    String → QuotaReservation → ℤ → ℤ → Budgets → Result (ℕ × ℕ) × Budgets
finalize_reservation now r actual_tokens actual_cost m =
    if is_negative actual_tokens || is_negative actual_cost
    then (err value_error, m)
    else (let period = period_of now r in
        let tokens = get_tokens_used r.tenant_id period m in
        let cost = get_dollars_spent r.tenant_id period m in
        if mem_str r.reservation_id m.finalized
        then (ok (tokens, cost), m)
        else (let new_tokens =
              add_floor tokens (sub_ℕ (pos_part actual_tokens) r.reserved_tokens) in
            let new_cost = add_floor cost (sub_ℕ (pos_part actual_cost) r.reserved_cost) in
            (
              ok (new_tokens, new_cost),
              write_usage r.tenant_id period new_tokens new_cost
                  (record m { finalized = r.reservation_id ∷ m.finalized }),
            )))

unfoldable pub settle_request : String → String → ℤ → ℤ → Budgets → Result (ℕ × ℕ) × Budgets
settle_request period tenant_id billed_tokens billed_cost m =
    if is_negative billed_tokens || is_negative billed_cost
    then (err value_error, m)
    else (let new_tokens = get_tokens_used tenant_id period m + pos_part billed_tokens in
        let new_cost = get_dollars_spent tenant_id period m + pos_part billed_cost in
        (ok (new_tokens, new_cost), write_usage tenant_id period new_tokens new_cost m))

unfoldable pub record_token_usage : String → String → ℤ → Budgets → Result ℕ × Budgets
record_token_usage period tenant_id tokens m =
    let (settled, m') = settle_request period tenant_id tokens (pos 0) m in
    (settled >>= (λ counters. ok counters.0), m')

-- Tokens saved are counted, so they are not negative.
unfoldable pub record_tokens_saved : String → String → ℕ → Budgets → ℕ × Budgets
record_tokens_saved period tenant_id saved m =
    let key = usage_key tenant_id period in
    let total = or_else (lookup key m.tokens_saved) 0 + saved in
    (total, record m { tokens_saved = insert key total m.tokens_saved })
