-- ===== src/Governance/Service/Execute.antt =====
-- `GovernanceService.execute` against the contracts of its repository and of the supplier system,
-- whatever other requests do at each of its waits.
use multi_agent_system.Base.{
  ℕ, Uuid, none, some, true, ◌≡◌, ◌⊎◌, inl, inr, arith, Bool-cases, Option-cases,
}
use multi_agent_system.Exec.{
  Result, Result-cases, Error, ok, err, authorization_denied, action_state, transition_conflict,
}
use multi_agent_system.Persistence.{World, UuidLibrary}
use multi_agent_system.Schemas.{
  Role, Principal, has_role, GovernedAction, ActionStatus, SupplierDecisionArguments,
  ExecutionReceipt, same_status,
}
use multi_agent_system.Governance.Interface.{ActionRepository, ApprovalWorkflow, SupplierSystem}
use multi_agent_system.Governance.Laws.{View, IsLawful}
use multi_agent_system.Governance.Service.{
  execute, executed_action, executed_event, may_enter, stored_receipt,
}

-- The supplier system does not touch the actions.
pub record IsApart (view : View) (system : SupplierSystem) : Type 0 where
  pub apart :
      (action_id key : Uuid) (arguments : SupplierDecisionArguments) (i : Uuid) (w : World)
      → view (system.set_onboarding_decision action_id key arguments w).1 i ≡ view w i

module _ (u : UuidLibrary) (repository : ActionRepository) (lawful : IsLawful repository)
    (workflow : ApprovalWorkflow) (system : SupplierSystem) (others : ℕ → World → World)
    (action_id : Uuid) (p : Principal) (w : World) where
  -- The call of the supplier system, with the arguments of the stored action.
  abbrev pub applied : GovernedAction → Result ExecutionReceipt × World
  applied a = system.set_onboarding_decision a.id a.idempotency_key a.arguments (others 0 w)

  -- The state in which the receipt is saved, and the outcome of that.
  abbrev pub before_save : GovernedAction → World
  before_save a = others 1 (applied a).1

  abbrev pub saved : GovernedAction → ExecutionReceipt → Result GovernedAction × World
  saved a r =
      repository.save_transition (executed_action a r)
        (executed_event (executed_action a r) r p.subject) ActionStatus.approved (before_save a)

  -- The state that is read again after a lost race.
  abbrev pub after_loss : GovernedAction → ExecutionReceipt → World
  after_loss a r = others 2 (saved a r).1

  -- What is known of an action that `execute` may act on.
  pub record Reads (a : GovernedAction) : Type 0 where
    pub role : has_role p Role.executor ≡ true
    pub read : lawful.view w action_id ≡ ok a
    pub tenant : may_enter p a.tenant_id ≡ true

  -- The ways through `execute`.
  pub data Case (out : Result ExecutionReceipt × World) : Type 0 where
    denied : (e : Error) → out ≡ (err e, w) → Case out
    replays :
        (a : GovernedAction) (r : ExecutionReceipt)
        → Reads a
        → stored_receipt a ≡ some r
        → out ≡ (ok r, w)
        → Case out
    fails :
        (a : GovernedAction) (e : Error)
        → Reads a
        → a.status ≡ ActionStatus.approved
        → (applied a).0 ≡ err e
        → out ≡ (err e, (applied a).1)
        → Case out
    wins :
        (a x : GovernedAction) (r : ExecutionReceipt)
        → Reads a
        → a.status ≡ ActionStatus.approved
        → (applied a).0 ≡ ok r
        → (saved a r).0 ≡ ok x
        → out ≡ (ok r, (saved a r).1)
        → Case out
    loses :
        (a current : GovernedAction) (r s : ExecutionReceipt)
        → Reads a
        → a.status ≡ ActionStatus.approved
        → (applied a).0 ≡ ok r
        → (saved a r).0 ≡ err transition_conflict
        → lawful.view (after_loss a r) action_id ≡ ok current
        → stored_receipt current ≡ some s
        → out ≡ (ok s, after_loss a r)
        → Case out
    stops :
        (a : GovernedAction) (r : ExecutionReceipt) (e : Error)
        → Reads a
        → a.status ≡ ActionStatus.approved
        → (applied a).0 ≡ ok r
        → out.0 ≡ err e
        → (out.1 ≡ (saved a r).1) ⊎ (out.1 ≡ after_loss a r)
        → Case out

  abbrev run : Result ExecutionReceipt × World
  run = execute u repository workflow system others action_id p w

  module _ (a : GovernedAction) (c : Reads a) (fresh : stored_receipt a ≡ none)
      (approved : same_status a.status ActionStatus.approved ≡ true) where
    status_lem : a.status ≡ ActionStatus.approved
    status_lem = ground arith

    -- The save lost a race, and the winner's receipt is looked up.
    lost_case :
        (r : ExecutionReceipt)
        → (applied a).0 ≡ ok r
        → (saved a r).0 ≡ err transition_conflict
        → Case run
    unfolding execute
    lost_case r did lost =
        let first = lawful.get_lem action_id w in
        let again = lawful.get_lem action_id (after_loss a r) in
        elim (Result-cases (lawful.view (after_loss a r) action_id)) [
          | inl (current, found) ↦ elim (Option-cases (stored_receipt current)) [
            | inl unexecuted ↦
                stops a r action_state c status_lem did (ground arith) (inr (ground arith))
            | inr (s, there) ↦ loses a current r s c status_lem did lost found there (ground arith)
          ]
          | inr (e, gone) ↦ stops a r e c status_lem did (ground arith) (inr (ground arith))
        ]

    approved_case : Case run
    unfolding execute
    approved_case =
        let first = lawful.get_lem action_id w in
        elim (Result-cases (applied a).0) [
          | inl (r, did) ↦ elim (Result-cases (saved a r).0) [
            | inl (x, won) ↦ wins a x r c status_lem did won (ground arith)
            | inr (transition_conflict, lost) ↦ lost_case r did lost
            | inr (e, failed) ↦ stops a r e c status_lem did (ground arith) (inl (ground arith))
          ]
          | inr (e, failed) ↦ fails a e c status_lem failed (ground arith)
        ]

  read_case : (a : GovernedAction) → Reads a → Case run
  unfolding execute
  read_case a c =
      let first = lawful.get_lem action_id w in
      elim (Option-cases (stored_receipt a)) [
        | inr (r, there) ↦ replays a r c there (ground arith)
        | inl fresh ↦ elim (Bool-cases (same_status a.status ActionStatus.approved)) [
          | inl approved ↦ approved_case a c fresh approved
          | inr other ↦ denied action_state (ground arith)
        ]
      ]

  pub cases : Case run
  unfolding execute
  cases =
      let first = lawful.get_lem action_id w in
      elim (Bool-cases (has_role p Role.executor)) [
        | inr outsider ↦ denied authorization_denied (ground arith)
        | inl role ↦ elim (Result-cases (lawful.view w action_id)) [
          | inr (e, missing) ↦ denied e (ground arith)
          | inl (a, read) ↦ elim (Bool-cases (may_enter p a.tenant_id)) [
            | inl tenant ↦ read_case a (record { role = role; read = read; tenant = tenant })
            | inr foreign ↦ denied authorization_denied (ground arith)
          ]
        ]
      ]
