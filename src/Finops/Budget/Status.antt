-- ===== src/Finops/Budget/Status.antt =====
-- finops/budget.py, `set_budget` and `get_budget_status`, with the validation of `TenantBudget`
-- (finops/models.py). An amount and its limit are compared as the source compares its floats; that the
-- sum of two amounts may be off by the last bit of a float is left out.
use jake_ai.Prelude.{
  Bool, Dict, Option, Option-cases, Result, String, arith, err, false, if◌then◌else◌, inl, inr,
  insert, leb, lookup, lookup-insert_self, ltb, map_option, none, ok, or_else, pos, refl,
  round_ratio, some, true, value_error, ℕ, ◌&&◌, ◌*◌, ◌+◌, ◌-◌, ◌||◌, ◌↔◌, ◌≡◌, ◌≤◌,
}
use jake_ai.Finops.Budget.{
  Budgets, get_token_quota, get_dollar_budget, get_warning_threshold, get_tokens_used,
  get_dollars_spent, check_budget, default_monthly_token_quota, default_warning_threshold,
}

pub data Warning : Type 0 where
  suspended approaching : Warning

-- Percentages are in hundredths of a percent.
pub record TenantBudget : Type 0 where
  pub tenant_id : String
  pub period : String
  pub token_quota : ℕ
  pub tokens_used : ℕ
  pub tokens_remaining : ℕ
  pub percentage_tokens_used : ℕ
  pub dollar_budget : Option ℕ
  pub dollar_spent : ℕ
  pub dollar_remaining : Option ℕ
  pub percentage_dollars_used : Option ℕ
  pub warning_threshold : ℕ
  pub is_suspended : Bool
  pub warning : Option Warning

unfoldable pub percentage : ℕ → ℕ → ℕ
percentage used limit = if ltb 0 limit then round_ratio (used * 10000) limit else 10000

abbrev pub dollar_percentage : ℕ → Option ℕ → Option ℕ
dollar_percentage spent none = none
dollar_percentage spent (some limit) = if ltb 0 limit then some (percentage spent limit) else none

abbrev pub reaches : ℕ → Option ℕ → Bool
reaches threshold none = false
reaches threshold (some pct) = leb threshold pct

abbrev pub dollars_used_up : ℕ → Option ℕ → Bool
dollars_used_up spent none = false
dollars_used_up spent (some limit) = leb limit spent

unfoldable pub is_suspended : String → String → Budgets → Bool
is_suspended tenant_id period m =
    leb (get_token_quota tenant_id m) (get_tokens_used tenant_id period m)
    || dollars_used_up (get_dollars_spent tenant_id period m) (get_dollar_budget tenant_id m)

unfoldable pub get_budget_status : String → String → Budgets → Result TenantBudget
get_budget_status tenant_id period m =
    let limit = get_token_quota tenant_id m in
    let used = get_tokens_used tenant_id period m in
    let dollar_limit = get_dollar_budget tenant_id m in
    let spent = get_dollars_spent tenant_id period m in
    let threshold = get_warning_threshold tenant_id m in
    let pct_tokens = percentage used limit in
    let pct_dollars = dollar_percentage spent dollar_limit in
    if leb 1 limit && leb 1000 threshold && leb threshold 9900
    then ok (record {
      tenant_id = tenant_id;
      period = period;
      token_quota = limit;
      tokens_used = used;
      tokens_remaining = limit - used;
      percentage_tokens_used = pct_tokens;
      dollar_budget = dollar_limit;
      dollar_spent = spent;
      dollar_remaining = map_option (λ dollars. dollars - spent) dollar_limit;
      percentage_dollars_used = pct_dollars;
      warning_threshold = threshold;
      is_suspended = is_suspended tenant_id period m;
      warning =
          if is_suspended tenant_id period m
          then some suspended
          else (if leb threshold pct_tokens || reaches threshold pct_dollars
              then some approaching
              else none);
    })
    else err value_error

abbrev pub write_limit : String → Option ℕ → Dict ℕ → Dict ℕ
write_limit tenant_id none d = d
write_limit tenant_id (some n) d = insert tenant_id n d

unfoldable pub set_budget :
    String → String → Option ℕ → Option ℕ → Option ℕ → Budgets → Result TenantBudget × Budgets
set_budget period tenant_id token_quota dollar_budget warning_threshold m =
    let m' = record m {
      token_limits = write_limit tenant_id token_quota m.token_limits;
      dollar_limits = write_limit tenant_id dollar_budget m.dollar_limits;
      warning_thresholds = write_limit tenant_id warning_threshold m.warning_thresholds;
    } in
    (get_budget_status tenant_id period m', m')

-- The status page and the check disagree in one case only: a tenant that the page shows as suspended
-- passes a check of some tokens at no cost exactly when its quota has room for the tokens and the
-- dollars that it has spent are its whole dollar budget.
pub suspended_yet_admitted :
    (tenant_id period : String) (tokens : ℕ) (m : Budgets)
    → 1 ≤ tokens
    → ((is_suspended tenant_id period m ≡ true)
        × ((check_budget period tenant_id (pos tokens) (pos 0) m).0 ≡ true))
      ↔ ((get_tokens_used tenant_id period m + tokens ≤ get_token_quota tenant_id m)
          × (get_dollar_budget tenant_id m ≡ some (get_dollars_spent tenant_id period m)))
unfolding is_suspended check_budget
suspended_yet_admitted tenant_id period tokens m some_tokens =
    elim (Option-cases (get_dollar_budget tenant_id m)) [
      | inl unlimited ↦ ground arith
      | inr (limit, limited) ↦ ground arith
    ]

-- A dollar limit that is set once stays when a later update names none.
pub dollar_limit_stays :
    (period tenant_id : String) (quota threshold : Option ℕ) (m : Budgets)
    → get_dollar_budget tenant_id (set_budget period tenant_id quota none threshold m).1
      ≡ get_dollar_budget tenant_id m
unfolding set_budget get_dollar_budget
dollar_limit_stays period tenant_id quota threshold m = refl

lookup-write_limit :
    (k : String) (o : Option ℕ) (d : Dict ℕ)
    → lookup k (write_limit k o d) ≡ (elim o [ none ↦ lookup k d | some n ↦ some n ])
lookup-write_limit k none d = refl
lookup-write_limit k (some n) d = lookup-insert_self k n d

or_else-write_limit :
    (k : String) (o : Option ℕ) (d : Dict ℕ) (z : ℕ)
    → or_else (lookup k (write_limit k o d)) z ≡ or_else o (or_else (lookup k d) z)
or_else-write_limit k none d z = refl
or_else-write_limit k (some n) d z = rw (lookup-insert_self k n d)

-- What an update names is what the status then shows, and the rest is as before; an update that the
-- status rejects has been stored all the same.
set_budget_lem :
    (period tenant_id : String) (quota dollars threshold : Option ℕ) (m : Budgets)
    → (get_token_quota tenant_id (set_budget period tenant_id quota dollars threshold m).1
        ≡ or_else quota (get_token_quota tenant_id m))
      × (get_dollar_budget tenant_id (set_budget period tenant_id quota dollars threshold m).1
          ≡ (elim dollars [ none ↦ get_dollar_budget tenant_id m | some n ↦ some n ]))
      × (get_warning_threshold tenant_id (set_budget period tenant_id quota dollars threshold m).1
          ≡ or_else threshold (get_warning_threshold tenant_id m))
      × ((set_budget period tenant_id quota dollars threshold m).0
          ≡ get_budget_status tenant_id period
              (set_budget period tenant_id quota dollars threshold m).1)
unfolding set_budget get_dollar_budget get_token_quota get_warning_threshold
set_budget_lem period tenant_id quota dollars threshold m = (
  or_else-write_limit tenant_id quota m.token_limits default_monthly_token_quota,
  lookup-write_limit tenant_id dollars m.dollar_limits,
  or_else-write_limit tenant_id threshold m.warning_thresholds default_warning_threshold,
  refl,
)
