-- ===== src/Agent/Approvals/Pending.antt =====
-- What a client of the approval store can bring about.
use jake_ai.Prelude.{
  All, Bool-cases, List, Option, String, [], arith, eq_iff, filter, inl, inr, lookup, lookup-insert,
  lookup-nil, ok, some, values, ℕ, ◌∷◌, ◌≡◌,
}
use jake_ai.Agent.Approvals.{
  ApprovalRequest, ApprovalDecision, pending, Store, Proposal, create_request, get_request, decide,
  list_pending, clear, is_listed,
}

-- The operations that may write.
pub data Operation : Type 0 where
  create : String → ℕ → Proposal → Operation
  submit : String → ApprovalDecision → String → String → Operation
  reset : Operation

unfoldable pub apply : Operation → Store → Store
unfolding create_request decide clear
apply (create approval_id now p) store = (create_request approval_id now p store).1
apply (submit approval_id decision tenant_id user_id) store =
    (decide approval_id decision tenant_id user_id store).1
apply reset store = clear store

unfoldable pub apply_all : List Operation → Store → Store
apply_all [] store = store
apply_all (op ∷ ops) store = apply_all ops (apply op store)

-- Every stored request is pending, and stands under its own id.
abbrev pub IsPending : Store → Type 0
IsPending store =
    (k : String) (req : ApprovalRequest)
    → lookup k store ≡ some req
    → (req.status ≡ pending) × (req.approval_id ≡ k)

apply-IsPending : (op : Operation) (store : Store) → IsPending store → IsPending (apply op store)
unfolding apply
apply-IsPending (create approval_id now p) store h k req e = ground (
  arith,
  lookup-insert approval_id k (create_request approval_id now p store).0 store,
  eq_iff approval_id k,
  h k req,
)
apply-IsPending (submit approval_id decision tenant_id user_id) store h k req e = h k req e
apply-IsPending reset store h k req e = cc (lookup-nil {V = ApprovalRequest} k)

apply_all-IsPending :
    (ops : List Operation) (store : Store) → IsPending store → IsPending (apply_all ops store)
unfolding apply_all
apply_all-IsPending [] store h = h
apply_all-IsPending (op ∷ ops) store h =
    apply_all-IsPending ops (apply op store) (apply-IsPending op store h)

get_request-ok :
    (approval_id tenant_id : String) (store : Store) (req : ApprovalRequest)
    → get_request approval_id tenant_id store ≡ ok req
    → (lookup approval_id store ≡ some req) × (req.tenant_id ≡ tenant_id)
unfolding get_request
get_request-ok approval_id tenant_id store req e = ground (arith, eq_iff req.tenant_id tenant_id)

-- No sequence of operations, decisions by any user included, brings an approval gate out of pending:
-- whatever request can be looked up by its id and its tenant waits for a decision.
pub gates_stay_pending :
    (ops : List Operation) (store : Store) (approval_id tenant_id : String) (req : ApprovalRequest)
    → IsPending store
    → get_request approval_id tenant_id (apply_all ops store) ≡ ok req
    → (req.status ≡ pending) × (req.tenant_id ≡ tenant_id) × (req.approval_id ≡ approval_id)
gates_stay_pending ops store approval_id tenant_id req h e =
    let (found, tenant) = get_request-ok approval_id tenant_id (apply_all ops store) req e in
    let (status, key) = apply_all-IsPending ops store h approval_id req found in
    (status, tenant, key)

kept_are_pending :
    (tenant_id : String) (run_id : Option String) (reqs : List ApprovalRequest)
    → All
        (λ (req : ApprovalRequest). (req.tenant_id ≡ tenant_id) × (req.status ≡ pending))
        (filter (is_listed tenant_id run_id) reqs)
unfolding is_listed
kept_are_pending tenant_id run_id [] = tt
kept_are_pending tenant_id run_id (req ∷ reqs) =
    elim (Bool-cases (is_listed tenant_id run_id req)) [
      | inl keep ↦ rw keep (
        (ground (arith, eq_iff req.tenant_id tenant_id), ground arith),
        kept_are_pending tenant_id run_id reqs,
      )
      | inr skip ↦ rw skip (kept_are_pending tenant_id run_id reqs)
    ]

-- A request that is listed belongs to the tenant and is pending.
listed_are_pending :
    (tenant_id : String) (run_id : Option String) (store : Store)
    → All
        (λ (req : ApprovalRequest). (req.tenant_id ≡ tenant_id) × (req.status ≡ pending))
        (list_pending tenant_id run_id store)
unfolding list_pending
listed_are_pending tenant_id run_id store = kept_are_pending tenant_id run_id (values store)
