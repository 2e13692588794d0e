-- ===== src/Schemas/Outbox.antt =====
-- packages/schemas/outbox.py.
use multi_agent_system.Base.{ℕ, String, Option, Uuid, DateTime}

-- The members of `OutboxEventType` and `OutboxStatus`. An event type is a string in the database.
abbrev pub approval_workflow_start : String
approval_workflow_start = "approval.workflow.start"

pub data OutboxStatus : Type 0 where
  pending published dead_lettered : OutboxStatus

pub record ApprovalWorkflowStartPayload : Type 0 where
  pub action_id : Uuid
  pub case_id : Uuid
  pub tenant_id : String

pub record OutboxMessageCreate : Type 0 where
  pub aggregate_type : String
  pub aggregate_id : Uuid
  pub event_type : String
  pub payload : ApprovalWorkflowStartPayload

-- `dict[str, str]` with at most the one key `workflow_execution_arn` that the program writes.
pub record DeliveryResult : Type 0 where
  pub workflow_execution_arn : Option String

pub record OutboxMessage : Type 0 where
  pub create : OutboxMessageCreate
  pub open create use *
  pub id : Uuid
  pub status : OutboxStatus
  pub attempt_count : ℕ
  pub available_at : DateTime
  pub locked_at : Option DateTime
  pub locked_by : Option String
  pub published_at : Option DateTime
  pub dead_lettered_at : Option DateTime
  pub last_error : Option String
  pub delivery_result : Option DeliveryResult
  pub created_at : DateTime

pub record OutboxDispatchResult : Type 0 where
  pub claimed : ℕ
  pub published : ℕ
  pub retried : ℕ
  pub dead_lettered : ℕ
