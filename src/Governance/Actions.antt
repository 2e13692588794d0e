-- ===== src/Governance/Actions.antt =====
-- packages/governance/service.py: what the methods of `GovernanceService` check and build, and
-- `InMemorySupplierSystem`.
use Prim.Native.String.{◌++◌}
use multi_agent_system.Base.{
  String, [], ◌∷◌, Option, none, some, Bool, ◌||◌, Uuid, DateTime, str_eq, if◌then◌else◌, nat_eq,
}
use multi_agent_system.Base.Dict
use multi_agent_system.Exec.{Exec, pure, gets, modify, require, ◌>>=◌, ◌>>◌, authorization_denied}
use multi_agent_system.Persistence.{World, UuidLibrary, now_utc}
use multi_agent_system.Schemas.{
  Role, Principal, has_role, contains_role, Value, AuditEventCreate, SupplierCase, ReviewResult,
  GovernedAction, ActionStatus, ApprovalDecision, ApprovalRequest, ActionProposalRequest,
  ExecutionReceipt, SupplierDecisionArguments, OutboxMessageCreate, same_status, status_value,
  set_onboarding_decision_tool, approval_workflow_start,
}
use multi_agent_system.Governance.Interface.{SupplierSystem}

-- `_require_role`
unfoldable pub require_role : Principal → Role → Exec World (Unit {0})
require_role p r = require (has_role p r) authorization_denied

-- The condition that `_require_tenant` lets pass.
unfoldable pub may_enter : Principal → String → Bool
may_enter p tenant = contains_role Role.admin p.roles || str_eq p.tenant_id tenant

-- `_require_tenant`
unfoldable pub require_tenant : Principal → String → Exec World (Unit {0})
unfolding may_enter
require_tenant p tenant = require (may_enter p tenant) authorization_denied

unfoldable pub receipt_for :
    UuidLibrary → Uuid → SupplierDecisionArguments → DateTime → ExecutionReceipt
receipt_for u action_id arguments now = record {
  action_id = action_id;
  external_reference = "supplier-system://decisions/" ++ u.str action_id;
  applied_decision = arguments.decision;
  executed_at = now;
}

apply_decision :
    UuidLibrary
    → Uuid
    → Uuid
    → SupplierDecisionArguments
    → Option ExecutionReceipt
    → Exec World ExecutionReceipt
unfolding receipt_for
apply_decision u action_id key arguments (some existing) = pure existing
apply_decision u action_id key arguments none = do
  now ← now_utc
  let receipt = receipt_for u action_id arguments now
  modify (λ w. record w { receipts = Dict.put w.receipts key receipt })
  pure receipt

-- `InMemorySupplierSystem.set_onboarding_decision`
unfoldable pub set_onboarding_decision :
    UuidLibrary → Uuid → Uuid → SupplierDecisionArguments → Exec World ExecutionReceipt
unfolding apply_decision
set_onboarding_decision u action_id key arguments = do
  existing ← gets (λ w. Dict.get w.receipts key)
  apply_decision u action_id key arguments existing

unfoldable pub in_memory_supplier_system : UuidLibrary → SupplierSystem
in_memory_supplier_system u = record { set_onboarding_decision = set_onboarding_decision u }

-- The identifier that `propose` derives: one per tenant of the principal and idempotency key.
unfoldable pub action_id_for : UuidLibrary → String → Uuid → Uuid
action_id_for u tenant key = u.uuid5 u.namespace_url (tenant ++ ":" ++ u.str key)

unfoldable pub arguments_for : SupplierCase → ReviewResult → SupplierDecisionArguments
arguments_for c review = record {
  supplier_case_id = c.id;
  review_id = review.review_id;
  decision = review.recommendation.decision;
  rationale = review.recommendation.rationale;
  required_actions = review.recommendation.required_actions;
}

unfoldable pub proposal_for :
    UuidLibrary
    → SupplierCase
    → ReviewResult
    → ActionProposalRequest
    → Principal
    → DateTime
    → GovernedAction
unfolding action_id_for arguments_for
proposal_for u c review request p now = record {
  id = action_id_for u p.tenant_id request.idempotency_key;
  case_id = c.id;
  review_id = review.review_id;
  tenant_id = c.tenant_id;
  tool_name = set_onboarding_decision_tool;
  arguments = arguments_for c review;
  status = ActionStatus.pending_approval;
  proposer_id = p.subject;
  approver_id = none;
  approval_comment = "";
  idempotency_key = request.idempotency_key;
  workflow_execution_arn = none;
  execution_receipt = none;
  created_at = now;
  decided_at = none;
  executed_at = none;
}

unfoldable pub proposed_event : GovernedAction → String → AuditEventCreate
proposed_event a actor = record {
  case_id = a.case_id;
  event_type = "action.proposed";
  actor_id = actor;
  payload =
      ("action_id", Value.uuid a.id)
      ∷ ("review_id", Value.uuid a.review_id)
      ∷ ("tool_name", Value.text a.tool_name)
      ∷ [];
}

unfoldable pub start_message : GovernedAction → OutboxMessageCreate
start_message a = record {
  aggregate_type = "governed_action";
  aggregate_id = a.id;
  event_type = approval_workflow_start;
  payload = record { action_id = a.id; case_id = a.case_id; tenant_id = a.tenant_id };
}

unfoldable pub decided_status : ApprovalDecision → ActionStatus
decided_status ApprovalDecision.approve = ActionStatus.approved
decided_status ApprovalDecision.reject = ActionStatus.rejected

unfoldable pub decided_action :
    GovernedAction → ApprovalRequest → String → DateTime → GovernedAction
unfolding decided_status
decided_action a request approver now = record a {
  status = decided_status request.decision;
  approver_id = some approver;
  approval_comment = request.comment;
  decided_at = some now;
}

unfoldable pub decided_event : GovernedAction → String → AuditEventCreate
decided_event a actor = record {
  case_id = a.case_id;
  event_type = "action." ++ status_value a.status;
  actor_id = actor;
  payload = ("action_id", Value.uuid a.id) ∷ ("comment", Value.text a.approval_comment) ∷ [];
}

unfoldable pub executed_action : GovernedAction → ExecutionReceipt → GovernedAction
executed_action a r = record a {
  status = ActionStatus.executed;
  execution_receipt = some r;
  executed_at = some r.executed_at;
}

unfoldable pub executed_event : GovernedAction → ExecutionReceipt → String → AuditEventCreate
executed_event a r actor = record {
  case_id = a.case_id;
  event_type = "action.executed";
  actor_id = actor;
  payload =
      ("action_id", Value.uuid a.id) ∷ ("external_reference", Value.text r.external_reference) ∷ [];
}

-- The receipt of an action that has been executed.
unfoldable pub stored_receipt : GovernedAction → Option ExecutionReceipt
stored_receipt a = if same_status a.status ActionStatus.executed then a.execution_receipt else none
