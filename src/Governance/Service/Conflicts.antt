-- ===== src/Governance/Service/Conflicts.antt =====
-- `GovernanceService`: two requests for the same action, in any order and at any distance.
use multi_agent_system.Base.{ℕ, some, Uuid, true, ◌≡◌, ◌≢◌, arith}
use multi_agent_system.Exec.{Result, Error, ok, err}
use multi_agent_system.Persistence.{World, UuidLibrary}
use multi_agent_system.Schemas.{
  Role, has_role, ExecutionReceipt, Principal, GovernedAction, ActionStatus, ApprovalRequest,
}
use multi_agent_system.Governance.Interface.{ActionRepository, ApprovalWorkflow, SupplierSystem}
use multi_agent_system.Governance.Laws.{
  Evolves, IsKeyed, IsLawful, IsPolite, decided_stays, executed_stays,
}
use multi_agent_system.Governance.Service.{decide, execute, may_enter, stored_receipt}
use multi_agent_system.Governance.Service.Answer.{decided_status-ne-pending}
use multi_agent_system.Governance.Service.Execute.{IsApart}
use multi_agent_system.Governance.Service.Execute
use multi_agent_system.Governance.Service.Execution.{execute_ok}
use multi_agent_system.Governance.Service.Decide.{Case, denied, saves, cases, decide_ok}

module _ (u : UuidLibrary) (repository : ActionRepository) (lawful : IsLawful repository)
    (workflow : ApprovalWorkflow) (system : SupplierSystem) (others : ℕ → World → World) where
  -- A decision on an action that is no longer pending fails and changes nothing.
  decide_late :
      (action_id : Uuid) (request : ApprovalRequest) (p : Principal) (w : World)
      (a : GovernedAction)
      → lawful.view w action_id ≡ ok a
      → a.status ≢ ActionStatus.pending_approval
      → (e : Error) × (decide u repository workflow system others action_id request p w
          ≡ (err e, w))
  decide_late action_id request p w a held decided =
      of_case _ (cases u repository lawful workflow system others action_id request p w)
    where
      of_case :
          (out : Result GovernedAction × World)
          → Case u repository lawful workflow system others action_id request p w out
          → (e : Error) × (out ≡ (err e, w))
      of_case out (denied e eq) = (e, eq)
      of_case out (saves b c eq) = absurd (decided (ground (arith, c.read, c.pending)))

  -- Of the decisions on one action at most one succeeds: after a decision that `decide` returned,
  -- and any later requests that follow the policy, each other call fails and changes nothing.
  pub decide_once :
      (action_id : Uuid) (request request' : ApprovalRequest) (p p' : Principal) (w w' : World)
      (d : GovernedAction)
      → IsPolite lawful.view others
      → IsKeyed lawful.view w
      → (decide u repository workflow system others action_id request p w).0 ≡ ok d
      → Evolves lawful.view (decide u repository workflow system others action_id request p w).1 w'
      → (e : Error) × (decide u repository workflow system others action_id request' p' w'
          ≡ (err e, w'))
  decide_once action_id request request' p p' w w' d polite keyed decided later =
      let s =
        decide_ok u repository lawful workflow system others action_id request p w polite keyed d
          decided in
      let (b, held, adv) = later.advance action_id s.new s.holds in
      decide_late action_id request' p' w' b held (
        decided_stays adv.lifecycle (λ e.
          decided_status-ne-pending request.decision (cc (s.outcome, s.transition.same_status, e))))

  -- An action that is neither approved nor executed is refused before the supplier system is
  -- called: nothing happens at all.
  pub execute_unapproved :
      (action_id : Uuid) (p : Principal) (w : World) (a : GovernedAction)
      → lawful.view w action_id ≡ ok a
      → a.status ≢ ActionStatus.approved
      → a.status ≢ ActionStatus.executed
      → (e : Error) × (execute u repository workflow system others action_id p w ≡ (err e, w))
  unfolding stored_receipt
  execute_unapproved action_id p w a held unapproved unexecuted =
      of_case _ (Execute.cases u repository lawful workflow system others action_id p w)
    where
      of_case :
          (out : Result ExecutionReceipt × World)
          → Execute.Case u repository lawful workflow system others action_id p w out
          → (e : Error) × (out ≡ (err e, w))
      of_case out (Execute.denied e eq) = (e, eq)
      of_case out (Execute.replays b r c there eq) = absurd (unexecuted (ground (arith, c.read)))
      of_case out (Execute.fails b e c s did eq) = absurd (unapproved (ground (arith, c.read)))
      of_case out (Execute.wins b x r c s did won eq) = absurd (unapproved (ground (arith, c.read)))
      of_case out (Execute.loses b current r t c s did lost found there eq) =
          absurd (unapproved (ground (arith, c.read)))
      of_case out (Execute.stops b r e c s did failed at) =
          absurd (unapproved (ground (arith, c.read)))

  execute_replay :
      (action_id : Uuid) (p : Principal) (w : World) (a : GovernedAction) (r : ExecutionReceipt)
      → lawful.view w action_id ≡ ok a
      → stored_receipt a ≡ some r
      → has_role p Role.executor ≡ true
      → may_enter p a.tenant_id ≡ true
      → execute u repository workflow system others action_id p w ≡ (ok r, w)
  unfolding execute
  execute_replay action_id p w a r held there role tenant =
      ground (arith, lawful.get_lem action_id w)

  -- Execution is idempotent: once `execute` has returned a receipt, then after any later requests
  -- that follow the policy each authorised call returns the same receipt and changes nothing.
  pub execute_once :
      (action_id : Uuid) (p p' : Principal) (w w' : World) (r : ExecutionReceipt)
      → IsApart lawful.view system
      → IsPolite lawful.view others
      → IsKeyed lawful.view w
      → (execute u repository workflow system others action_id p w).0 ≡ ok r
      → Evolves lawful.view (execute u repository workflow system others action_id p w).1 w'
      → (b : GovernedAction) → lawful.view w' action_id ≡ ok b
      → has_role p' Role.executor ≡ true
      → may_enter p' b.tenant_id ≡ true
      → execute u repository workflow system others action_id p' w' ≡ (ok r, w')
  unfolding stored_receipt
  execute_once action_id p p' w w' r apart polite keyed returned later b held role tenant =
      let s =
        execute_ok u repository lawful workflow system others action_id p w apart polite keyed r
          returned in
      let (c, found, adv) = later.advance action_id s.new s.holds in
      let done : s.new.status ≡ ActionStatus.executed = ground (arith, s.receipt) in
      let still : c.status ≡ ActionStatus.executed = executed_stays adv.lifecycle done in
      let kept : c.execution_receipt ≡ s.new.execution_receipt = adv.receipt done in
      let same : c ≡ b = ground arith in
      execute_replay action_id p' w' b r held (ground (arith, s.receipt)) role tenant
