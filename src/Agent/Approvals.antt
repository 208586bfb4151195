-- ===== src/Agent/Approvals.antt =====
-- agent/approvals: the approval gates (models.py, manager.py) and the policy that demands them
-- (policy.py). A method returns what it returns or raises beside the store. The id of a new request,
-- which `uuid` draws, and the time are arguments.
pub mod Policy
pub mod Pending
mod Tests
use jake_ai.Prelude.{
  Bool, Dict, List, Option, Result, String, Value, [], err, false, filter, if◌then◌else◌, insert,
  key_error, lookup, none, not, ok, permission_error, some, str_eq, true, values, ℕ, ◌&&◌,
}

pub data ApprovalStatus : Type 0 where
  pending approved rejected : ApprovalStatus

pub record ApprovalDecision : Type 0 where
  pub approved : Bool
  pub reason : Option String

pub record ApprovalRequest : Type 0 where
  pub approval_id : String
  pub task_id : String
  pub run_id : String
  pub tenant_id : String
  pub tool_name : String
  pub tool_args : Dict Value
  pub risk_level : String
  pub reason : String
  pub status : ApprovalStatus
  pub created_at : ℕ
  pub decided_at : Option ℕ
  pub decided_by : Option String
  pub rejection_reason : Option String

-- `ApprovalManager._approvals`
abbrev pub Store : Type 0
Store = Dict ApprovalRequest

-- what the caller of `create_request` gives
pub record Proposal : Type 0 where
  pub task_id : String
  pub run_id : String
  pub tenant_id : String
  pub tool_name : String
  pub tool_args : Dict Value
  pub reason : String
  pub risk_level : String

unfoldable pub create_request : String → ℕ → Proposal → Store → ApprovalRequest × Store
create_request approval_id now p store =
    let req : ApprovalRequest = record {
      approval_id = approval_id;
      task_id = p.task_id;
      run_id = p.run_id;
      tenant_id = p.tenant_id;
      tool_name = p.tool_name;
      tool_args = p.tool_args;
      risk_level = p.risk_level;
      reason = p.reason;
      status = pending;
      created_at = now;
      decided_at = none;
      decided_by = none;
      rejection_reason = none;
    } in
    (req, insert approval_id req store)

-- a lookup that checks the tenant of what it finds
abbrev check_tenant : String → Option ApprovalRequest → Result ApprovalRequest
check_tenant tenant_id none = err key_error
check_tenant tenant_id (some req) =
    if not (str_eq req.tenant_id tenant_id) then err permission_error else ok req

unfoldable pub get_request : String → String → Store → Result ApprovalRequest
get_request approval_id tenant_id store = check_tenant tenant_id (lookup approval_id store)

-- no decision is ever recorded: the store is no durable authority
unfoldable pub decide :
    String → ApprovalDecision → String → String → Store → Result ApprovalRequest × Store
decide approval_id decision tenant_id user_id store = (err permission_error, store)

abbrev pub is_pending : ApprovalStatus → Bool
is_pending pending = true
is_pending _ = false

-- `run_id is None or req.run_id == run_id`
abbrev of_run : Option String → ApprovalRequest → Bool
of_run none req = true
of_run (some run_id) req = str_eq req.run_id run_id

unfoldable pub is_listed : String → Option String → ApprovalRequest → Bool
is_listed tenant_id run_id req =
    str_eq req.tenant_id tenant_id && is_pending req.status && of_run run_id req

unfoldable pub list_pending : String → Option String → Store → List ApprovalRequest
list_pending tenant_id run_id store = filter (is_listed tenant_id run_id) (values store)

unfoldable pub clear : Store → Store
clear store = []
