-- ===== src/Tests/Fixtures.antt =====
-- A supplier case with one review, and an action on it in each state that the tests start from.
use multi_agent_system.Base.{ℕ, ◌+◌, String, List, [], ◌∷◌, Option, none, some, DateTime}
use multi_agent_system.Exec.{ok}
use multi_agent_system.Persistence.{
  World, Database, SupplierCaseRecord, ReviewRunRecord, GovernedActionRecord, OutboxMessageRecord,
  UuidLibrary, empty_world, empty_database,
}
use multi_agent_system.Schemas.{
  Role, Principal, Decision, SupplierDecisionArguments, ExecutionReceipt, ApprovalRequest,
  ApprovalDecision, ActionProposalRequest, SupplierCase, CaseStatus, ReviewResult,
}
use multi_agent_system.Governance.{ApprovalWorkflow}

abbrev pub library : UuidLibrary
library = record { namespace_url = 1; uuid5 = λ n s. 40; str = λ i. "40"; hex = λ i. "28" }

abbrev pub workflow : ApprovalWorkflow
workflow = record { start = λ a w. (ok "arn:execution", w) }

-- Nothing else runs.
abbrev pub alone : ℕ → World → World
alone n w = w

abbrev pub quiet : World → World
quiet w = w

abbrev pub person : String → Role → Principal
person subject role = record {
  subject = subject;
  tenant_id = "acme";
  roles = role ∷ [];
  scopes = [];
}

abbrev pub stranger : Principal
stranger = record (person "eve" Role.executor) { tenant_id = "other" }

abbrev pub approval : ApprovalRequest
approval = record { decision = ApprovalDecision.approve; comment = "fine" }

abbrev pub arguments : SupplierDecisionArguments
arguments = record {
  supplier_case_id = 5;
  review_id = 7;
  decision = Decision.approve;
  rationale = "sound";
  required_actions = [];
}

abbrev pub case_row : SupplierCaseRecord
case_row = record {
  id = 5;
  tenant_id = "acme";
  supplier_name = "Supplier";
  description = "";
  status = "pending_approval";
  created_at = 1;
  updated_at = 1;
}

abbrev pub review_row : ReviewRunRecord
review_row = record {
  id = 7;
  case_id = 5;
  model_backend = "deterministic";
  decision = some Decision.approve;
  rationale = some "sound";
  required_actions_json = [];
  confidence = some 90;
  started_at = 1;
  completed_at = some 2;
}

abbrev pub action_row :
    String → Option String → Option DateTime → Option ExecutionReceipt → GovernedActionRecord
action_row status approver decided_at receipt = record {
  id = 40;
  case_id = 5;
  review_id = 7;
  tenant_id = "acme";
  tool_name = "supplier.set_onboarding_decision";
  arguments_json = arguments;
  status = status;
  proposer_id = "ann";
  approver_id = approver;
  approval_comment = "";
  idempotency_key = 9;
  workflow_execution_arn = none;
  execution_receipt_json = receipt;
  created_at = 3;
  decided_at = decided_at;
  executed_at = none;
}

abbrev pub message_row : OutboxMessageRecord
message_row = record {
  id = 60;
  aggregate_type = "governed_action";
  aggregate_id = 40;
  event_type = "approval.workflow.start";
  payload_json = record { action_id = 40; case_id = 5; tenant_id = "acme" };
  attempt_count = 0;
  available_at = 10;
  locked_at = none;
  locked_by = none;
  published_at = none;
  dead_lettered_at = none;
  last_error = none;
  delivery_result_json = none;
  created_at = 10;
}

abbrev pub database : List GovernedActionRecord → List OutboxMessageRecord → Database
database actions messages = record empty_database {
  supplier_cases = case_row ∷ [];
  review_runs = review_row ∷ [];
  governed_actions = actions;
  outbox_messages = messages;
}

abbrev pub world : List GovernedActionRecord → List OutboxMessageRecord → World
world actions messages = record (empty_world (λ n. 100 + n) (λ n. 1000 + n)) {
  database = database actions messages;
}

abbrev pub pending_world : World
pending_world = world (action_row "pending_approval" none none none ∷ []) (message_row ∷ [])

abbrev pub approved_world : World
approved_world = world (action_row "approved" (some "bob") (some 4) none ∷ []) (message_row ∷ [])

abbrev pub supplier_case : SupplierCase
supplier_case = record {
  id = 5;
  tenant_id = "acme";
  supplier_name = "Supplier";
  description = "";
  status = CaseStatus.pending_approval;
  documents = [];
  created_at = 1;
  updated_at = 1;
}

abbrev pub review : ReviewResult
review = record {
  review_id = 7;
  case_id = 5;
  findings = [];
  recommendation = record {
    decision = Decision.approve;
    rationale = "sound";
    required_actions = [];
    confidence = 90;
  };
  model_backend = "deterministic";
  started_at = 1;
  completed_at = 2;
}

abbrev pub proposal_request : ActionProposalRequest
proposal_request = record { idempotency_key = 9 }
