-- ===== src/Schemas/Actions.antt =====
-- packages/schemas/actions.py.
use Prim.Native.String.{count}
use multi_agent_system.Base.{
  String, List, Option, none, some, Bool, true, false, ◌&&◌, ◌≡◌, refl, Uuid, DateTime, leb, length,
  str_eq, if◌then◌else◌,
}
use multi_agent_system.Schemas.Reviews.{Decision}

pub data ActionStatus : Type 0 where
  pending_approval approved rejected executed failed : ActionStatus

-- `status is other`, of enum members.
abbrev pub same_status : ActionStatus → ActionStatus → Bool
same_status ActionStatus.pending_approval ActionStatus.pending_approval = true
same_status ActionStatus.approved ActionStatus.approved = true
same_status ActionStatus.rejected ActionStatus.rejected = true
same_status ActionStatus.executed ActionStatus.executed = true
same_status ActionStatus.failed ActionStatus.failed = true
same_status _ _ = false

-- `status.value`
unfoldable pub status_value : ActionStatus → String
status_value ActionStatus.pending_approval = "pending_approval"
status_value ActionStatus.approved = "approved"
status_value ActionStatus.rejected = "rejected"
status_value ActionStatus.executed = "executed"
status_value ActionStatus.failed = "failed"

pub data ApprovalDecision : Type 0 where
  approve reject : ApprovalDecision

pub record SupplierDecisionArguments : Type 0 where
  pub supplier_case_id : Uuid
  pub review_id : Uuid
  pub decision : Decision
  pub rationale : String
  pub required_actions : List String

-- The bounds that pydantic checks when the arguments are built.
unfoldable pub are_valid_arguments : SupplierDecisionArguments → Bool
are_valid_arguments a =
    leb 1 (count a.rationale) && leb (count a.rationale) 4000 && leb (length a.required_actions) 100

pub record ActionProposalRequest : Type 0 where
  pub idempotency_key : Uuid

pub record ApprovalRequest : Type 0 where
  pub decision : ApprovalDecision
  pub comment : String

pub record ApprovalStatusRequest : Type 0 where
  pub action_id : Uuid

pub record ApprovalStatusResponse : Type 0 where
  pub action_id : Uuid
  pub status : ActionStatus

pub record ExecutionReceipt : Type 0 where
  pub action_id : Uuid
  pub external_reference : String
  pub applied_decision : Decision
  pub executed_at : DateTime

pub record GovernedAction : Type 0 where
  pub id : Uuid
  pub case_id : Uuid
  pub review_id : Uuid
  pub tenant_id : String
  pub tool_name : String
  pub arguments : SupplierDecisionArguments
  pub status : ActionStatus
  pub proposer_id : String
  pub approver_id : Option String
  pub approval_comment : String
  pub idempotency_key : Uuid
  pub workflow_execution_arn : Option String
  pub execution_receipt : Option ExecutionReceipt
  pub created_at : DateTime
  pub decided_at : Option DateTime
  pub executed_at : Option DateTime

-- The default of `tool_name`, and the only value of its type.
abbrev pub set_onboarding_decision_tool : String
set_onboarding_decision_tool = "supplier.set_onboarding_decision"

-- `ActionStatus(text)`: the member with this value, if there is one.
unfoldable pub status_of_value : String → Option ActionStatus
status_of_value s =
    if str_eq s "pending_approval"
    then some ActionStatus.pending_approval
    else if str_eq s "approved"
    then some ActionStatus.approved
    else if str_eq s "rejected"
    then some ActionStatus.rejected
    else if str_eq s "executed"
    then some ActionStatus.executed
    else if str_eq s "failed"
    then some ActionStatus.failed
    else none

pub status_of_value-status_value : (s : ActionStatus) → status_of_value (status_value s) ≡ some s
unfolding status_of_value status_value
status_of_value-status_value ActionStatus.pending_approval = refl
status_of_value-status_value ActionStatus.approved = refl
status_of_value-status_value ActionStatus.rejected = refl
status_of_value-status_value ActionStatus.executed = refl
status_of_value-status_value ActionStatus.failed = refl
