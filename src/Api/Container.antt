-- ===== src/Api/Container.antt =====
-- apps/api/dependencies.py: what the handlers find in `ApplicationContainer`. What other requests
-- do while a handler waits for one of these collaborators is part of what that collaborator does.
use multi_agent_system.Base.{ℕ, String, List, Bool, Uuid}
use multi_agent_system.Exec.{Exec}
use multi_agent_system.Persistence.{World, UuidLibrary}
use multi_agent_system.Schemas.{
  Principal, SupplierCase, ReviewResult, ReviewExecution, EvidenceConfirmation, IndexResult,
  RetrievedChunk, GovernedAction, ActionProposalRequest, ApprovalRequest,
}
use multi_agent_system.Cases.Interface.{CaseRepository}
use multi_agent_system.Governance.{ActionRepository, ApprovalWorkflow, SupplierSystem}
use multi_agent_system.Governance.Service
use multi_agent_system.Graphs.Engine.{Engine}
use multi_agent_system.Graphs.Workflow

abbrev pub Headers : Type 0
Headers = List (String × String)

-- `Authenticator` of packages/identity/auth.py.
pub record Authenticator : Type 0 where
  pub authenticate : Headers → Exec World Principal

-- The public methods of `SupplierReviewWorkflow`.
pub record ReviewWorkflow : Type 0 where
  pub execution_id_for : String → Uuid → Uuid → Uuid
  pub run : SupplierCase → Exec World ReviewResult
  pub start : SupplierCase → Uuid → Bool → Exec World ReviewExecution
  pub get_execution : SupplierCase → Uuid → Exec World ReviewExecution
  pub resume : SupplierCase → Uuid → EvidenceConfirmation → Exec World ReviewExecution

-- `SupplierReviewWorkflow` over LangGraph.
abbrev pub supplier_review_workflow : UuidLibrary → String → Engine → ReviewWorkflow
supplier_review_workflow u backend_name engine = record {
  execution_id_for = Workflow.execution_id_for u;
  run = Workflow.run backend_name engine;
  start = Workflow.start backend_name engine;
  get_execution = Workflow.get_execution;
  resume = Workflow.resume backend_name engine;
}

-- `RetrievalService` of packages/retrieval/service.py.
pub record RetrievalService : Type 0 where
  pub index_case : SupplierCase → Exec World IndexResult
  pub search : Uuid → String → ℕ → Exec World (List RetrievedChunk)

-- The methods of `GovernanceService` that the routes call.
pub record Governance : Type 0 where
  pub propose :
      SupplierCase → ReviewResult → ActionProposalRequest → Principal → Exec World GovernedAction
  pub decide : Uuid → ApprovalRequest → Principal → Exec World GovernedAction
  pub get : Uuid → Principal → Exec World GovernedAction

abbrev pub governance_service :
    UuidLibrary
    → ActionRepository
    → ApprovalWorkflow
    → SupplierSystem
    → (ℕ → World → World)
    → Governance
governance_service u repository workflow system others = record {
  propose = Service.propose u repository workflow system others;
  decide = Service.decide u repository workflow system others;
  get = Service.get u repository workflow system others;
}

pub record ApplicationContainer : Type 0 where
  pub retrieval_limit : ℕ
  pub cases : CaseRepository
  pub workflow : ReviewWorkflow
  pub retrieval : RetrievalService
  pub authenticator : Authenticator
  pub governance : Governance
