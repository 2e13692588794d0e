-- ===== src/Governance/Interface.antt =====
-- packages/governance/repositories.py, service.py and packages/workflows/approvals.py: the
-- protocols through which the governance service reaches its collaborators.
use multi_agent_system.Base.{String, Bool, Uuid}
use multi_agent_system.Exec.{Exec}
use multi_agent_system.Persistence.{World}
use multi_agent_system.Schemas.{
  GovernedAction, ActionStatus, AuditEvent, AuditEventCreate, OutboxMessageCreate, ExecutionReceipt,
  SupplierDecisionArguments,
}

abbrev pub AuditWriter : Type 0
AuditWriter = AuditEventCreate → Exec World AuditEvent

pub record ActionRepository : Type 0 where
  pub uses_transactional_outbox : Bool
  pub create_proposal :
      GovernedAction → AuditEventCreate → OutboxMessageCreate → Exec World (GovernedAction × Bool)
  pub get : Uuid → Exec World GovernedAction
  pub save_transition : GovernedAction → AuditEventCreate → ActionStatus → Exec World GovernedAction

pub record ApprovalWorkflow : Type 0 where
  pub start : GovernedAction → Exec World String

pub record SupplierSystem : Type 0 where
  pub set_onboarding_decision :
      Uuid → Uuid → SupplierDecisionArguments → Exec World ExecutionReceipt
