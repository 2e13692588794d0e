-- ===== src/Persistence/Models.antt =====
-- packages/persistence/models.py: the rows of each table, in insertion order, and the constraints
-- that a commit checks. A JSON column keeps the value that was dumped into it, and the decision
-- of a review its enum member. The widths of the text columns, the indexes and the columns that the
-- program only writes are left out.
use multi_agent_system.Base.{
  ℕ, String, List, [], Option, Bool, not, ◌&&◌, ◌||◌, Uuid, DateTime, ◌==◌, str_eq, any,
}
use multi_agent_system.Schemas.{
  SupplierDecisionArguments, ExecutionReceipt, ApprovalWorkflowStartPayload, DeliveryResult, Value,
  Decision, Evidence,
}

pub record SupplierCaseRecord : Type 0 where
  pub id : Uuid
  pub tenant_id : String
  pub supplier_name : String
  pub description : String
  pub status : String
  pub created_at : DateTime
  pub updated_at : DateTime

pub record DocumentRecord : Type 0 where
  pub id : Uuid
  pub case_id : Uuid
  pub title : String
  pub position : ℕ
  pub content : String
  pub source_uri : Option String

pub record ReviewRunRecord : Type 0 where
  pub id : Uuid
  pub case_id : Uuid
  pub model_backend : String
  pub decision : Option Decision
  pub rationale : Option String
  pub required_actions_json : List String
  pub confidence : Option ℕ
  pub started_at : DateTime
  pub completed_at : Option DateTime

pub record FindingRecord : Type 0 where
  pub id : Uuid
  pub review_run_id : Uuid
  pub category : String
  pub severity : String
  pub title : String
  pub summary : String
  pub evidence_json : List Evidence
  pub remediation : String
  pub confidence : ℕ

pub record GovernedActionRecord : Type 0 where
  pub id : Uuid
  pub case_id : Uuid
  pub review_id : Uuid
  pub tenant_id : String
  pub tool_name : String
  pub arguments_json : SupplierDecisionArguments
  pub status : String
  pub proposer_id : String
  pub approver_id : Option String
  pub approval_comment : String
  pub idempotency_key : Uuid
  pub workflow_execution_arn : Option String
  pub execution_receipt_json : Option ExecutionReceipt
  pub created_at : DateTime
  pub decided_at : Option DateTime
  pub executed_at : Option DateTime

pub record AuditEventRecord : Type 0 where
  pub id : Uuid
  pub case_id : Uuid
  pub event_type : String
  pub actor_id : String
  pub payload_json : List (String × Value)
  pub created_at : DateTime

pub record OutboxMessageRecord : Type 0 where
  pub id : Uuid
  pub aggregate_type : String
  pub aggregate_id : Uuid
  pub event_type : String
  pub payload_json : ApprovalWorkflowStartPayload
  pub attempt_count : ℕ
  pub available_at : DateTime
  pub locked_at : Option DateTime
  pub locked_by : Option String
  pub published_at : Option DateTime
  pub dead_lettered_at : Option DateTime
  pub last_error : Option String
  pub delivery_result_json : Option DeliveryResult
  pub created_at : DateTime

pub record Database : Type 0 where
  pub supplier_cases : List SupplierCaseRecord
  pub documents : List DocumentRecord
  pub review_runs : List ReviewRunRecord
  pub findings : List FindingRecord
  pub governed_actions : List GovernedActionRecord
  pub audit_events : List AuditEventRecord
  pub outbox_messages : List OutboxMessageRecord

-- The target of a foreign key to `supplier_cases.id`.
abbrev pub has_case : Database → Uuid → Bool
has_case db i = any (λ c. c.id == i) db.supplier_cases

-- The target of a foreign key to `review_runs.id`.
abbrev pub has_review : Database → Uuid → Bool
has_review db i = any (λ r. r.id == i) db.review_runs

-- The primary key and `uq_governed_actions_tenant_idempotency`.
abbrev pub action_collides : GovernedActionRecord → GovernedActionRecord → Bool
action_collides a b =
    b.id == a.id || (str_eq b.tenant_id a.tenant_id && b.idempotency_key == a.idempotency_key)

-- The primary key and `uq_outbox_messages_aggregate_event`.
abbrev pub message_collides : OutboxMessageRecord → OutboxMessageRecord → Bool
message_collides m n =
    n.id == m.id
    || (str_eq n.aggregate_type m.aggregate_type
        && n.aggregate_id == m.aggregate_id
        && str_eq n.event_type m.event_type)

-- What a flush of one new row checks; `false` is an `IntegrityError`.
unfoldable pub admits_action : Database → GovernedActionRecord → Bool
admits_action db a =
    not (any (action_collides a) db.governed_actions)
    && has_case db a.case_id
    && has_review db a.review_id

unfoldable pub admits_event : Database → AuditEventRecord → Bool
admits_event db e = not (any (λ x. x.id == e.id) db.audit_events) && has_case db e.case_id

unfoldable pub admits_message : Database → OutboxMessageRecord → Bool
admits_message db m = not (any (message_collides m) db.outbox_messages)

abbrev pub empty_database : Database
empty_database = record {
  supplier_cases = [];
  documents = [];
  review_runs = [];
  findings = [];
  governed_actions = [];
  audit_events = [];
  outbox_messages = [];
}
