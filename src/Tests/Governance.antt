-- ===== src/Tests/Governance.antt =====
-- `GovernanceService` over the PostgreSQL repository, on concrete requests.
use multi_agent_system.Base.{ℕ, String, Option, none, some, ◌≡◌, refl, arith}
use multi_agent_system.Base.Dict
use multi_agent_system.Base.{Option-cases, inl, inr, nat_eq, str_eq_iff}
use multi_agent_system.Exec.{Error, ok, err, authorization_denied}
use multi_agent_system.Persistence.{World, admits_event}
use multi_agent_system.Schemas.{
  are_valid_arguments, Role, Principal, has_role, contains_role, status_value, status_of_value,
  GovernedAction, ActionStatus, ExecutionReceipt, Decision,
}
use multi_agent_system.Governance.{ActionRepository, SupplierSystem}
use multi_agent_system.Governance.Laws.{IsPolite, IsKeyed, IsLawful, Evolves, Evolves-refl}
use multi_agent_system.Governance.Sql
use multi_agent_system.Governance.Sql.{sql_repository}
use multi_agent_system.Governance.Sql.Lawful.{sql_contract, sql-IsKeyed}
use multi_agent_system.Governance.Service.{
  decided_action, decided_event, executed_action, executed_event, stored_receipt, may_enter,
  propose, get, decide, execute, in_memory_supplier_system, set_onboarding_decision,
}
use multi_agent_system.Governance.Service.Decide.{decide_ok, IsSeparated}
use multi_agent_system.Governance.Service.Lifecycle.{requests-Evolves}
use multi_agent_system.Governance.Service.Conflicts.{decide_once, execute_unapproved, execute_once}
use multi_agent_system.Governance.Service.Tenancy.{IsForeign, foreign_denied}
use multi_agent_system.Governance.Service.Execution.{execute_ok, IsExecuted}
use multi_agent_system.Governance.Service.Execute.{IsApart}
use multi_agent_system.Tests.Fixtures.{
  alone, quiet, library, workflow, person, approval, pending_world, approved_world, stranger,
  arguments, supplier_case, review, proposal_request,
}

abbrev repository : ActionRepository
repository = sql_repository quiet

abbrev contract : IsLawful repository
contract = sql_contract quiet

abbrev system : SupplierSystem
system = in_memory_supplier_system library

alone-IsPolite : IsPolite contract.view alone
alone-IsPolite n w = Evolves-refl contract.view w

keyed : (w : World) → IsKeyed contract.view w
unfolding sql_contract
keyed w = sql-IsKeyed w

apart : IsApart contract.view system
unfolding sql_contract in_memory_supplier_system set_onboarding_decision
apart = record {
  apart = λ i key a j w. elim (Option-cases (Dict.get w.receipts key)) [
    | inl nobody ↦ ground arith
    | inr (r, h) ↦ ground arith
  ];
}

abbrev bob : Principal
bob = person "bob" Role.approver

abbrev action : ActionStatus → Option String → Option ℕ → GovernedAction
action status approver decided_at = record {
  id = 40;
  case_id = 5;
  review_id = 7;
  tenant_id = "acme";
  tool_name = "supplier.set_onboarding_decision";
  arguments = arguments;
  status = status;
  proposer_id = "ann";
  approver_id = approver;
  approval_comment = "";
  idempotency_key = 9;
  workflow_execution_arn = none;
  execution_receipt = none;
  created_at = 3;
  decided_at = decided_at;
  executed_at = none;
}

abbrev decided : GovernedAction
decided = record (action ActionStatus.approved (some "bob") (some 1000)) {
  approval_comment = "fine";
}

bob_decides :
    (decide library repository workflow system alone 40 approval bob pending_world).0 ≡ ok decided
unfolding decide sql_repository Sql.get Sql.save_transition Sql.action_from_record
    are_valid_arguments Sql.audit_record has_role contains_role status_of_value status_value
    decided_action decided_event admits_event
bob_decides = refl

decide_ok_example :
    IsSeparated library repository contract workflow system alone 40 approval bob pending_world
      decided
      (decide library repository workflow system alone 40 approval bob pending_world).1
decide_ok_example =
    decide_ok library repository contract workflow system alone 40 approval bob pending_world
      alone-IsPolite (keyed pending_world) decided bob_decides

abbrev after_bob : World
after_bob = (decide library repository workflow system alone 40 approval bob pending_world).1

decide_once_example :
    (e : Error) × (decide library repository workflow system alone 40 approval
        (person "cid" Role.approver)
        after_bob
      ≡ (err e, after_bob))
decide_once_example =
    decide_once library repository contract workflow system alone 40 approval approval bob
      (person "cid" Role.approver) pending_world after_bob decided alone-IsPolite
      (keyed pending_world) bob_decides (Evolves-refl contract.view after_bob)

abbrev eve : Principal
eve = person "eve" Role.executor

abbrev receipt : ExecutionReceipt
receipt = record {
  action_id = 40;
  external_reference = "supplier-system://decisions/40";
  applied_decision = Decision.approve;
  executed_at = 1000;
}

eve_executes :
    (execute library repository workflow system alone 40 eve approved_world).0 ≡ ok receipt
unfolding execute has_role contains_role sql_repository Sql.get Sql.save_transition
    Sql.action_from_record are_valid_arguments Sql.audit_record status_of_value status_value
    stored_receipt in_memory_supplier_system set_onboarding_decision Dict.get executed_action
    admits_event executed_event
eve_executes = refl

abbrev after_eve : World
after_eve = (execute library repository workflow system alone 40 eve approved_world).1

execute_ok_example :
    IsExecuted library repository contract workflow system alone 40 eve approved_world receipt
      after_eve
execute_ok_example =
    execute_ok library repository contract workflow system alone 40 eve approved_world apart
      alone-IsPolite (keyed approved_world) receipt eve_executes

requests-Evolves_example :
    Evolves contract.view pending_world after_bob × Evolves contract.view approved_world after_eve
requests-Evolves_example =
    requests-Evolves library repository contract workflow system alone 40 approval bob eve
      pending_world approved_world apart alone-IsPolite (keyed pending_world) (keyed approved_world)

pending_found : contract.view pending_world 40 ≡ ok (action ActionStatus.pending_approval none none)
unfolding sql_contract Sql.action_from_record are_valid_arguments status_of_value
pending_found = refl

abbrev executed : GovernedAction
executed = record (action ActionStatus.executed (some "bob") (some 4)) {
  execution_receipt = some receipt;
  executed_at = some 1000;
}

executed_found : contract.view after_eve 40 ≡ ok executed
unfolding execute sql_contract has_role contains_role sql_repository Sql.get Sql.save_transition
    Sql.action_from_record are_valid_arguments Sql.audit_record status_of_value status_value
    stored_receipt in_memory_supplier_system set_onboarding_decision Dict.get executed_action
    admits_event executed_event
executed_found = refl

execute_once_example :
    execute library repository workflow system alone 40 eve after_eve ≡ (ok receipt, after_eve)
unfolding has_role contains_role may_enter
execute_once_example =
    execute_once library repository contract workflow system alone 40 eve eve approved_world
      after_eve receipt apart alone-IsPolite (keyed approved_world) eve_executes
      (Evolves-refl contract.view after_eve) executed executed_found refl refl

execute_unapproved_example :
    (e : Error) × (execute library repository workflow system alone 40 eve pending_world
      ≡ (err e, pending_world))
execute_unapproved_example =
    execute_unapproved library repository contract workflow system alone 40 eve pending_world
      (action ActionStatus.pending_approval none none) pending_found (λ h. cc) (λ h. cc)

stranger-IsForeign : IsForeign stranger "acme"
unfolding contains_role
stranger-IsForeign = (refl, λ e. ground (arith, (str_eq_iff "other" "acme").1 e))

foreign_denied_example :
    (get library repository workflow system alone 40 stranger pending_world
      ≡ (err authorization_denied, pending_world))
    × (decide library repository workflow system alone 40 approval stranger pending_world
        ≡ (err authorization_denied, pending_world))
    × (execute library repository workflow system alone 40 stranger pending_world
        ≡ (err authorization_denied, pending_world))
    × (propose library repository workflow system alone supplier_case review proposal_request
          stranger pending_world
        ≡ (err authorization_denied, pending_world))
foreign_denied_example =
    foreign_denied library repository contract workflow system alone stranger 40 approval
      pending_world (action ActionStatus.pending_approval none none) supplier_case review
      proposal_request pending_found stranger-IsForeign stranger-IsForeign
