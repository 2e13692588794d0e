-- ===== src/Governance/Service.antt =====
-- packages/governance/service.py: `GovernanceService`. What other
-- requests do to the shared state while a method waits for its collaborators is `others`: its
-- first argument numbers the waits of one call.
pub mod Answer
pub mod Decide
pub mod Execute
pub mod Execution
pub mod Conflicts
pub mod Tenancy
pub mod Lifecycle
pub mod Propose
use multi_agent_system.Base.{
  ℕ, String, [], ◌∷◌, Option, none, some, Bool, true, false, not, ◌&&◌, ◌||◌, Uuid, DateTime, ◌==◌,
  str_eq, if◌then◌else◌, nat_eq,
}
use multi_agent_system.Base.Dict
use multi_agent_system.Exec.{
  Exec, Error, pure, raise, gets, catch, modify, require, ◌>>=◌, ◌>>◌, authorization_denied,
  action_state, idempotency_conflict, value_error, transition_conflict,
}
use multi_agent_system.Persistence.{World, UuidLibrary, now_utc}
use multi_agent_system.Schemas.{
  Role, Principal, has_role, contains_role, Value, AuditEventCreate, SupplierCase, ReviewResult,
  GovernedAction, ActionStatus, ApprovalDecision, ApprovalRequest, ActionProposalRequest,
  ExecutionReceipt, SupplierDecisionArguments, OutboxMessageCreate, same_status, status_value,
  are_valid_arguments, set_onboarding_decision_tool, approval_workflow_start,
}
use multi_agent_system.Governance.Interface.{ActionRepository, ApprovalWorkflow, SupplierSystem}
unfoldable pub use multi_agent_system.Governance.Actions.{
  require_role, may_enter, require_tenant, receipt_for, set_onboarding_decision,
  in_memory_supplier_system, action_id_for, arguments_for, proposal_for, proposed_event,
  start_message, decided_status, decided_action, decided_event, executed_action, executed_event,
  stored_receipt,
}

-- `except ActionTransitionConflictError as exc: raise ActionStateError`
as_state_error : Error → Exec World GovernedAction
as_state_error transition_conflict = raise action_state
as_state_error e = raise e

module _ (u : UuidLibrary) (repository : ActionRepository) (workflow : ApprovalWorkflow)
    (system : SupplierSystem) (others : ℕ → World → World) where
  -- The workflow is started before the proposal is stored, if no outbox does it.
  unfoldable pub start_workflow : Bool → GovernedAction → Exec World GovernedAction
  start_workflow true a = pure a
  start_workflow false a = do
    reference ← workflow.start a
    pure (record a { workflow_execution_arn = some reference })

  unfoldable pub propose :
      SupplierCase → ReviewResult → ActionProposalRequest → Principal → Exec World GovernedAction
  unfolding start_workflow require_role require_tenant
  propose c review request p = do
    require_role p Role.analyst
    require_tenant p c.tenant_id
    require (review.case_id == c.id) value_error
    now ← now_utc
    let proposal = proposal_for u c review request p now
    require (are_valid_arguments proposal.arguments) value_error
    action ← start_workflow repository.uses_transactional_outbox proposal
    modify (others 0)
    (stored, created) ←
        repository.create_proposal action (proposed_event action p.subject) (start_message action)
    require (stored.case_id == action.case_id && stored.review_id == action.review_id)
        idempotency_conflict
    pure stored

  unfoldable pub decide : Uuid → ApprovalRequest → Principal → Exec World GovernedAction
  unfolding require_role require_tenant as_state_error
  decide action_id request p = do
    require_role p Role.approver
    action ← repository.get action_id
    require_tenant p action.tenant_id
    require (not (str_eq action.proposer_id p.subject)) authorization_denied
    require (same_status action.status ActionStatus.pending_approval) action_state
    now ← now_utc
    let decided = decided_action action request p.subject now
    modify (others 0)
    catch
        (repository.save_transition decided (decided_event decided p.subject)
          ActionStatus.pending_approval)
        as_state_error
    pure decided

  unfoldable pub get : Uuid → Principal → Exec World GovernedAction
  unfolding require_tenant
  get action_id p = do
    action ← repository.get action_id
    require_tenant p action.tenant_id
    pure action

  receipt_or_state_error : Option ExecutionReceipt → Exec World ExecutionReceipt
  receipt_or_state_error none = raise action_state
  receipt_or_state_error (some r) = pure r

  -- The handler in `execute`: a request that lost the race returns the receipt of the winner.
  return_current : Uuid → Error → Exec World ExecutionReceipt
  unfolding receipt_or_state_error
  return_current action_id transition_conflict = do
    modify (others 2)
    current ← repository.get action_id
    receipt_or_state_error (stored_receipt current)
  return_current action_id e = raise e

  execute_approved : Uuid → GovernedAction → Principal → Exec World ExecutionReceipt
  unfolding return_current
  execute_approved action_id action p = do
    require (same_status action.status ActionStatus.approved) action_state
    modify (others 0)
    receipt ← system.set_onboarding_decision action.id action.idempotency_key action.arguments
    modify (others 1)
    let executed = executed_action action receipt
    catch
        (do
          repository.save_transition executed (executed_event executed receipt p.subject)
              ActionStatus.approved
          pure receipt)
        (return_current action_id)

  return_or_execute :
      Uuid → GovernedAction → Principal → Option ExecutionReceipt → Exec World ExecutionReceipt
  unfolding execute_approved
  return_or_execute action_id action p (some r) = pure r
  return_or_execute action_id action p none = execute_approved action_id action p

  unfoldable pub execute : Uuid → Principal → Exec World ExecutionReceipt
  unfolding require_role require_tenant return_or_execute
  execute action_id p = do
    require_role p Role.executor
    action ← repository.get action_id
    require_tenant p action.tenant_id
    return_or_execute action_id action p (stored_receipt action)
