-- ===== src/Governance/Service/Tenancy.antt =====
-- `GovernanceService`: a principal outside the tenant of an action, and without the role that an
-- operation wants, gets nothing and changes nothing.
use multi_agent_system.Base.{ℕ, String, Uuid, false, ◌≡◌, ◌≢◌, arith, str_eq_iff}
use multi_agent_system.Exec.{ok, err, authorization_denied}
use multi_agent_system.Persistence.{World, UuidLibrary}
use multi_agent_system.Schemas.{
  Role, Principal, contains_role, SupplierCase, ReviewResult, ActionProposalRequest, GovernedAction,
  ApprovalRequest,
}
use multi_agent_system.Governance.Interface.{ActionRepository, ApprovalWorkflow, SupplierSystem}
use multi_agent_system.Governance.Laws.{IsLawful}
use multi_agent_system.Governance.Service.{propose, decide, get, execute, may_enter}

-- A principal of another tenant that is no administrator.
abbrev pub IsForeign : Principal → String → Type 0
IsForeign p tenant = (contains_role Role.admin p.roles ≡ false) × (p.tenant_id ≢ tenant)

foreign_is_refused :
    (p : Principal) (tenant : String) → IsForeign p tenant → may_enter p tenant ≡ false
unfolding may_enter
foreign_is_refused p tenant f = ground (arith, str_eq_iff p.tenant_id tenant)

module _ (u : UuidLibrary) (repository : ActionRepository) (lawful : IsLawful repository)
    (workflow : ApprovalWorkflow) (system : SupplierSystem) (others : ℕ → World → World)
    (p : Principal) where
  -- For an action of another tenant, `get`, `decide` and `execute` are denied, whatever the role
  -- and the request, and leave every part of the state as it was; and so is `propose` for a case
  -- of another tenant.
  pub foreign_denied :
      (action_id : Uuid) (request : ApprovalRequest) (w : World) (a : GovernedAction)
      (c : SupplierCase) (review : ReviewResult) (proposal : ActionProposalRequest)
      → lawful.view w action_id ≡ ok a
      → IsForeign p a.tenant_id
      → IsForeign p c.tenant_id
      → (get u repository workflow system others action_id p w ≡ (err authorization_denied, w))
        × (decide u repository workflow system others action_id request p w
            ≡ (err authorization_denied, w))
        × (execute u repository workflow system others action_id p w
            ≡ (err authorization_denied, w))
        × (propose u repository workflow system others c review proposal p w
            ≡ (err authorization_denied, w))
  unfolding get decide execute propose
  foreign_denied action_id request w a c review proposal held foreign outside =
      let first = lawful.get_lem action_id w in
      let barred = foreign_is_refused p a.tenant_id foreign in
      let shut = foreign_is_refused p c.tenant_id outside in
      (ground arith, ground arith, ground arith, ground arith)
