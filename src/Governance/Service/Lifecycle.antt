-- ===== src/Governance/Service/Lifecycle.antt =====
-- `GovernanceService`: what a request does to the actions that are stored, whoever asks.
use multi_agent_system.Base.{ℕ, Uuid}
use multi_agent_system.Persistence.{World, UuidLibrary}
use multi_agent_system.Schemas.{Principal, ApprovalRequest}
use multi_agent_system.Governance.Interface.{ActionRepository, ApprovalWorkflow, SupplierSystem}
use multi_agent_system.Governance.Laws.{Evolves, IsKeyed, IsLawful, IsPolite}
use multi_agent_system.Governance.Service.{decide, execute}
use multi_agent_system.Governance.Service.Execute.{IsApart}
use multi_agent_system.Governance.Service.Execution.{execute-Evolves}
use multi_agent_system.Governance.Service.Decide.{decide-Evolves}

-- If the requests that run in between only advance actions themselves, the supplier system leaves
-- the actions alone and each action is stored under its own identifier, then `decide` and
-- `execute` only advance actions too, whatever they answer: proposals are immutable, the status
-- follows the lifecycle, and decisions and receipts are never replaced.
pub requests-Evolves :
    (u : UuidLibrary) (repository : ActionRepository) (lawful : IsLawful repository)
    (workflow : ApprovalWorkflow) (system : SupplierSystem) (others : ℕ → World → World)
    (action_id : Uuid) (request : ApprovalRequest) (p q : Principal) (w v : World)
    → IsApart lawful.view system
    → IsPolite lawful.view others
    → IsKeyed lawful.view w
    → IsKeyed lawful.view v
    → Evolves lawful.view w (decide u repository workflow system others action_id request p w).1
      × Evolves lawful.view v (execute u repository workflow system others action_id q v).1
requests-Evolves u repository lawful workflow system others action_id request p q w v apart polite
      keyed keyed' =
    (
      decide-Evolves u repository lawful workflow system others action_id request p w polite keyed,
      execute-Evolves u repository lawful workflow system others action_id q v apart polite keyed',
    )
