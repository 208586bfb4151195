-- ===== src/Agent/Approvals/Tests.antt =====
-- A gate on a shell command.
use jake_ai.Prelude.{List, [], insert, lookup, none, ok, refl, true, ◌∷◌, ◌≡◌}
use jake_ai.Agent.Approvals.{ApprovalRequest, Proposal, pending, create_request, get_request}
use jake_ai.Agent.Approvals.Pending.{
  Operation, create, submit, apply, apply_all, IsPending, gates_stay_pending,
}

abbrev proposal : Proposal
proposal = record {
  task_id = "task_1";
  run_id = "run_1";
  tenant_id = "acme";
  tool_name = "bash";
  tool_args = [];
  reason = "needs a shell";
  risk_level = "DANGEROUS";
}

abbrev operations : List Operation
operations =
    create "appr_1" 5 proposal
    ∷ submit "appr_1" (record { approved = true; reason = none }) "acme" "ann"
    ∷ []

abbrev gate : ApprovalRequest
gate = (create_request "appr_1" 5 proposal []).0

empty-IsPending : IsPending []
unfolding lookup
empty-IsPending k req e = cc

gate_found : get_request "appr_1" "acme" (apply_all operations []) ≡ ok gate
unfolding get_request apply_all apply create_request lookup insert
gate_found = refl

gates_stay_pending_example :
    (gate.status ≡ pending) × (gate.tenant_id ≡ "acme") × (gate.approval_id ≡ "appr_1")
gates_stay_pending_example =
    gates_stay_pending operations [] "appr_1" "acme" gate empty-IsPending gate_found
