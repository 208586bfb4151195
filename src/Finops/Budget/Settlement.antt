-- ===== src/Finops/Budget/Settlement.antt =====
-- The usage counters against an account that remembers what is settled and what is still reserved.
use jake_ai.Prelude.{
  List, Option, String, [], add_floor-sub_ℕ, arith, eq_iff, false, inl, inr, mem_str, none, pos,
  pos_part, refl, some, str_eq, subst, sym, ℕ, ℤ, ◌++◌, ◌+◌, ◌-◌, ◌∙◌, ◌∷◌, ◌≡◌,
}
use jake_ai.Finops.Budget.{
  Budgets, QuotaReservation, get_tokens_used, get_dollars_spent, reserve_budget,
  finalize_reservation, settle_request, period_of, write_usage,
}
use jake_ai.Finops.Budget.Reservations.{
  granted, reserve_budget-cases, used-write_usage, spent-write_usage,
}

-- What a tenant's usage in a period is made of: settled usage, and reservations that are open.
pub record Account : Type 0 where
  pub settled_tokens : ℕ
  pub settled_cost : ℕ
  pub held : List QuotaReservation

abbrev pub held_tokens : List QuotaReservation → ℕ
held_tokens [] = 0
held_tokens (r ∷ rs) = r.reserved_tokens + held_tokens rs

abbrev pub held_cost : List QuotaReservation → ℕ
held_cost [] = 0
held_cost (r ∷ rs) = r.reserved_cost + held_cost rs

-- No reservation of the list has the id.
abbrev pub IsFree : String → List QuotaReservation → Type 0
IsFree id [] = Unit
IsFree id (r ∷ rs) = (str_eq id r.reservation_id ≡ false) × IsFree id rs

-- The ids of the list are distinct, and none is finalized.
abbrev pub IsOpen : List String → List QuotaReservation → Type 0
IsOpen finalized [] = Unit
IsOpen finalized (r ∷ rs) =
    (mem_str r.reservation_id finalized ≡ false) × IsFree r.reservation_id rs × IsOpen finalized rs

abbrev pub hold : Option QuotaReservation → List QuotaReservation → List QuotaReservation
hold none rs = rs
hold (some r) rs = r ∷ rs

module _ (tenant_id period : String) where
  -- The counters are the settled usage and the open reservations.
  abbrev pub Matches : Budgets → Account → Type 0
  Matches m acc =
      (get_tokens_used tenant_id period m ≡ acc.settled_tokens + held_tokens acc.held)
      × (get_dollars_spent tenant_id period m ≡ acc.settled_cost + held_cost acc.held)
      × IsOpen m.finalized acc.held

  -- One call for the tenant in the period, and what it does to the account.
  pub data Step : Budgets → Account → Budgets → Account → Type 0 where
    -- a request, under an id that is not in use
    reserve :
        (id : String) (tokens cost : ℤ) (m : Budgets) (acc : Account)
        → mem_str id m.finalized ≡ false
        → IsFree id acc.held
        → Step m acc (reserve_budget id period tenant_id tokens cost m).1 (record acc {
          held = hold (granted (reserve_budget id period tenant_id tokens cost m).0) acc.held;
        })
    -- an open reservation gives way to what was used
    finalize :
        (now : String) (r : QuotaReservation) (tokens cost : ℕ) (m : Budgets) (acc : Account)
        (before after : List QuotaReservation)
        → acc.held ≡ before ++ (r ∷ after)
        → r.tenant_id ≡ tenant_id
        → period_of now r ≡ period
        → Step m acc (finalize_reservation now r (pos tokens) (pos cost) m).1 (record {
          settled_tokens = acc.settled_tokens + tokens;
          settled_cost = acc.settled_cost + cost;
          held = before ++ after;
        })
    -- usage without a reservation
    settle :
        (tokens cost : ℕ) (m : Budgets) (acc : Account)
        → Step m acc (settle_request period tenant_id (pos tokens) (pos cost) m).1 (record acc {
          settled_tokens = acc.settled_tokens + tokens;
          settled_cost = acc.settled_cost + cost;
        })

  pub data Trail : Budgets → Account → Budgets → Account → Type 0 where
    here : (m : Budgets) (acc : Account) → Trail m acc m acc
    step :
        {m m' m'' : Budgets} {acc acc' acc'' : Account}
        → Step m acc m' acc'
        → Trail m' acc' m'' acc''
        → Trail m acc m'' acc''

held_tokens-split :
    (before after : List QuotaReservation) (r : QuotaReservation)
    → held_tokens (before ++ (r ∷ after)) ≡ r.reserved_tokens + held_tokens (before ++ after)
held_tokens-split [] after r = refl
held_tokens-split (x ∷ before) after r = omega (arith, held_tokens-split before after r)

held_cost-split :
    (before after : List QuotaReservation) (r : QuotaReservation)
    → held_cost (before ++ (r ∷ after)) ≡ r.reserved_cost + held_cost (before ++ after)
held_cost-split [] after r = refl
held_cost-split (x ∷ before) after r = omega (arith, held_cost-split before after r)

IsFree-split :
    (id : String) (before after : List QuotaReservation) (r : QuotaReservation)
    → IsFree id (before ++ (r ∷ after))
    → (str_eq id r.reservation_id ≡ false) × IsFree id (before ++ after)
IsFree-split id [] after r h = h
IsFree-split id (x ∷ before) after r (hx, h) =
    let (hr, rest) = IsFree-split id before after r h in (hr, (hx, rest))

-- A new finalized id that none of the list has leaves the list open.
IsOpen-finalized :
    (id : String) (finalized : List String) (rs : List QuotaReservation)
    → IsFree id rs
    → IsOpen finalized rs
    → IsOpen (id ∷ finalized) rs
IsOpen-finalized id finalized [] free h = h
IsOpen-finalized id finalized (r ∷ rs) (ne, free) (fresh, apart, h) =
    (rw (ne, fresh), apart, IsOpen-finalized id finalized rs free h)

str_eq_sym : (s t : String) → str_eq s t ≡ false → str_eq t s ≡ false
str_eq_sym s t h = ground (arith, eq_iff s t, eq_iff t s)

-- Taking an open reservation out: it is not finalized, the others have other ids and stay open.
IsOpen-split :
    (finalized : List String) (before after : List QuotaReservation) (r : QuotaReservation)
    → IsOpen finalized (before ++ (r ∷ after))
    → (mem_str r.reservation_id finalized ≡ false)
      × IsFree r.reservation_id (before ++ after)
      × IsOpen finalized (before ++ after)
IsOpen-split finalized [] after r h = h
IsOpen-split finalized (x ∷ before) after r (fresh, apart, h) =
    let (hr, free, rest) = IsOpen-split finalized before after r h in
    let (ne, apart') = IsFree-split x.reservation_id before after r apart in
    (hr, (str_eq_sym x.reservation_id r.reservation_id ne, free), (fresh, apart', rest))

finalize_new :
    (now : String) (r : QuotaReservation) (tokens cost : ℕ) (m : Budgets)
    → mem_str r.reservation_id m.finalized ≡ false
    → (finalize_reservation now r (pos tokens) (pos cost) m).1
      ≡ write_usage r.tenant_id
          (period_of now r)
          (get_tokens_used r.tenant_id (period_of now r) m + tokens - r.reserved_tokens)
          (get_dollars_spent r.tenant_id (period_of now r) m + cost - r.reserved_cost)
          (record m { finalized = r.reservation_id ∷ m.finalized })
unfolding finalize_reservation
finalize_new now r tokens cost m fresh =
    rw
      (
        fresh,
        add_floor-sub_ℕ (get_tokens_used r.tenant_id (period_of now r) m) tokens r.reserved_tokens,
        add_floor-sub_ℕ (get_dollars_spent r.tenant_id (period_of now r) m) cost r.reserved_cost,
        finalize_reservation,
      )
      refl

settle-state :
    (period tenant_id : String) (tokens cost : ℕ) (m : Budgets)
    → (settle_request period tenant_id (pos tokens) (pos cost) m).1
      ≡ write_usage tenant_id period
          (get_tokens_used tenant_id period m + tokens)
          (get_dollars_spent tenant_id period m + cost)
          m
unfolding settle_request
settle-state period tenant_id tokens cost m = refl

module _ (tenant_id period : String) where
  write-Matches :
      (tokens cost : ℕ) (m : Budgets) (acc : Account)
      → tokens ≡ acc.settled_tokens + held_tokens acc.held
      → cost ≡ acc.settled_cost + held_cost acc.held
      → IsOpen m.finalized acc.held
      → Matches tenant_id period (write_usage tenant_id period tokens cost m) acc
  unfolding write_usage
  write-Matches tokens cost m acc ht hc ho = (
    used-write_usage tenant_id period tokens cost m ∙ ht,
    spent-write_usage tenant_id period tokens cost m ∙ hc,
    ho,
  )

  finalize-Matches :
      (now : String) (r : QuotaReservation) (tokens cost : ℕ) (m : Budgets) (acc : Account)
      (before after : List QuotaReservation)
      → acc.held ≡ before ++ (r ∷ after)
      → r.tenant_id ≡ tenant_id
      → period_of now r ≡ period
      → Matches tenant_id period m acc
      → Matches tenant_id period (finalize_reservation now r (pos tokens) (pos cost) m).1 (record {
        settled_tokens = acc.settled_tokens + tokens;
        settled_cost = acc.settled_cost + cost;
        held = before ++ after;
      })
  finalize-Matches now r tokens cost m acc before after e tenant date (ht, hc, ho) =
      let (fresh, free, rest) =
        IsOpen-split m.finalized before after r (subst (IsOpen m.finalized) e ho) in
      let ht' : get_tokens_used tenant_id period m
          ≡ acc.settled_tokens + (r.reserved_tokens + held_tokens (before ++ after)) =
        rw (sym (held_tokens-split before after r), sym e) ht in
      let hc' : get_dollars_spent tenant_id period m
          ≡ acc.settled_cost + (r.reserved_cost + held_cost (before ++ after)) =
        rw (sym (held_cost-split before after r), sym e) hc in
      rw (finalize_new now r tokens cost m fresh, tenant, date)
        (write-Matches _ _ (record m { finalized = r.reservation_id ∷ m.finalized }) _ (omega arith)
          (omega arith) (IsOpen-finalized r.reservation_id m.finalized (before ++ after) free rest))

  -- what is shown of a reply and of a state holds of the call that gives them
  reserve-Matches :
      (id : String) (tokens cost : ℤ) (m : Budgets) (acc : Account)
      (reply : Option QuotaReservation) (m' : Budgets)
      → reply ≡ granted (reserve_budget id period tenant_id tokens cost m).0
      → m' ≡ (reserve_budget id period tenant_id tokens cost m).1
      → Matches tenant_id period m' (record acc { held = hold reply acc.held })
      → Matches tenant_id period (reserve_budget id period tenant_id tokens cost m).1 (record acc {
        held = hold (granted (reserve_budget id period tenant_id tokens cost m).0) acc.held;
      })
  reserve-Matches id tokens cost m acc reply m' er es h =
      subst
        (λ g.
          Matches tenant_id period (reserve_budget id period tenant_id tokens cost m).1
            (record acc { held = hold g acc.held }))
        er
        (subst (λ x. Matches tenant_id period x (record acc { held = hold reply acc.held })) es h)

  Step-Matches :
      {m m' : Budgets} {acc acc' : Account}
      → Step tenant_id period m acc m' acc'
      → Matches tenant_id period m acc
      → Matches tenant_id period m' acc'
  Step-Matches (reserve id tokens cost m acc fresh free) (ht, hc, ho) =
      elim (reserve_budget-cases id tenant_id period tokens cost m) [
        | inl (refused, same) ↦ rw (refused, same) (ht, hc, ho)
        | inr (fits, pays, nt, nc, reply, state) ↦
            reserve-Matches id tokens cost m acc _ _ (sym reply) (sym state) (
              write-Matches _ _ m
                (record acc {
                  held =
                      record {
                        tenant_id = tenant_id;
                        period = period;
                        reserved_tokens = pos_part tokens;
                        reserved_cost = pos_part cost;
                        reservation_id = id;
                      }
                      ∷ acc.held;
                })
                (omega arith) (omega arith) (fresh, free, ho))
      ]
  Step-Matches (finalize now r tokens cost m acc before after e tenant date) h =
      finalize-Matches now r tokens cost m acc before after e tenant date h
  Step-Matches (settle tokens cost m acc) (ht, hc, ho) =
      rw (settle-state period tenant_id tokens cost m)
        (write-Matches _ _ m _ (omega arith) (omega arith) ho)

  -- The counters are exactly what was settled and what open reservations hold, after any calls for the
  -- tenant in the period, reservations being finalized in any order: what was reserved and not used is
  -- refunded, and nothing is counted twice.
  pub usage_is_settled_and_held :
      {m m' : Budgets} {acc acc' : Account}
      → Trail tenant_id period m acc m' acc'
      → Matches tenant_id period m acc
      → Matches tenant_id period m' acc'
  usage_is_settled_and_held (here m acc) h = h
  usage_is_settled_and_held (step s rest) h = usage_is_settled_and_held rest (Step-Matches s h)
