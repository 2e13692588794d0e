-- ===== src/Governance/Service/Execution.antt =====
-- What `GovernanceService.execute` guarantees: only approved actions run, whoever calls it, and a
-- receipt is final.
use multi_agent_system.Base.{ℕ, Uuid, some, true, ◌≡◌, ◌⊎◌, inl, inr, arith}
use multi_agent_system.Exec.{Result, ok}
use multi_agent_system.Persistence.{World, UuidLibrary}
use multi_agent_system.Schemas.{
  Role, Principal, has_role, GovernedAction, ActionStatus, ExecutionReceipt,
}
use multi_agent_system.Governance.Interface.{ActionRepository, ApprovalWorkflow, SupplierSystem}
use multi_agent_system.Governance.Laws.{
  Saved, SameProposal, SameTransition, Advances, Evolves, IsKeyed, IsLawful, IsPolite,
  Saved-Evolves, Evolves_of_same, Evolves-trans, Evolves-refl, Advances-trans, refused, unseen,
  stored, execute,
}
use multi_agent_system.Governance.Service.{
  executed_action, executed_event, may_enter, stored_receipt,
}
use multi_agent_system.Governance.Service as Service
use multi_agent_system.Governance.Service.Execute.{
  IsApart, Reads, Case, denied, replays, fails, wins, loses, stops, cases, applied, before_save,
  saved, after_loss,
}

module _ (u : UuidLibrary) (repository : ActionRepository) (lawful : IsLawful repository)
    (workflow : ApprovalWorkflow) (system : SupplierSystem) (others : ℕ → World → World)
    (action_id : Uuid) (p : Principal) (w : World) where
  abbrev run : Result ExecutionReceipt × World
  run = Service.execute u repository workflow system others action_id p w

  abbrev save_of : GovernedAction → ExecutionReceipt → Result GovernedAction × World
  save_of = saved u repository lawful workflow system others action_id p w

  abbrev save_state : GovernedAction → World
  save_state = before_save u repository lawful workflow system others action_id p w

  abbrev Reading : GovernedAction → Type 0
  Reading = Reads u repository lawful workflow system others action_id p w

  -- What a receipt that `execute` returns stands for.
  pub record IsExecuted (r : ExecutionReceipt) (after : World) : Type 0 where
    pub role : has_role p Role.executor ≡ true
    pub before : GovernedAction
    pub read : lawful.view w action_id ≡ ok before
    pub tenant : may_enter p before.tenant_id ≡ true
    pub cleared : (before.status ≡ ActionStatus.approved) ⊎ (before.status ≡ ActionStatus.executed)
    pub new : GovernedAction
    pub holds : lawful.view after action_id ≡ ok new
    pub receipt : stored_receipt new ≡ some r
    pub since : Advances before new

  module _ (apart : IsApart lawful.view system) (polite : IsPolite lawful.view others)
      (keyed : IsKeyed lawful.view w) where
    until_applied :
        (a : GovernedAction)
        → Evolves lawful.view w
            (applied u repository lawful workflow system others action_id p w a).1
    until_applied a = Evolves-trans lawful.view w (others 0 w) _ (polite 0 w) (
        Evolves_of_same lawful.view (others 0 w) _
          (λ i. apart.apart a.id a.idempotency_key a.arguments i (others 0 w)))

    until_save : (a : GovernedAction) → Evolves lawful.view w (save_state a)
    until_save a = Evolves-trans lawful.view w _ _ (until_applied a) (polite 1 _)

    -- The action that is found at the save is the one that was read, at a later time.
    later :
        (a old : GovernedAction)
        → Reading a
        → lawful.view (save_state a) a.id ≡ ok old
        → Advances a old
    later a old c held =
        let (b, hb, ab) = (until_save a).advance action_id a c.read in
        let own_id : a.id ≡ action_id = keyed action_id a c.read in
        let same : b ≡ old = ground arith in rw same at ab

    execution-Advances :
        (a old b : GovernedAction) (r : ExecutionReceipt)
        → a.status ≡ ActionStatus.approved
        → Advances a old
        → old.status ≡ ActionStatus.approved
        → (SameProposal old (executed_action a r) → SameProposal old b)
        → SameTransition (executed_action a r) b
        → Advances old b
    unfolding executed_action
    execution-Advances a old b r approved since was proposal moved = record {
      proposal = proposal (ground arith);
      lifecycle = rw (was, moved.same_status) execute;
      decision = λ h. ground (arith, since.decision (λ e. cc));
      receipt = λ h. cc;
    }

    saved-Evolves :
        (a : GovernedAction) (r : ExecutionReceipt)
        → Reading a
        → a.status ≡ ActionStatus.approved
        → Evolves lawful.view w (save_of a r).1
    saved-Evolves a r c approved = Evolves-trans lawful.view w (save_state a) _ (until_save a) (
        Saved-Evolves lawful.view (executed_action a r) ActionStatus.approved (save_state a) _
          ((until_save a).keyed keyed)
          (λ old b h s q t.
            execution-Advances a old b r approved (later a old c (unfold executed_action in h)) s q
              t)
          (lawful.save_lem (executed_action a r) _ _ _))

    lost-Evolves :
        (a : GovernedAction) (r : ExecutionReceipt)
        → Reading a
        → a.status ≡ ActionStatus.approved
        → Evolves lawful.view w
            (after_loss u repository lawful workflow system others action_id p w a r)
    lost-Evolves a r c approved =
        Evolves-trans lawful.view w _ _ (saved-Evolves a r c approved) (polite 2 _)

    -- If the requests that run in between only advance actions, so does a call of `execute`.
    pub execute-Evolves : Evolves lawful.view w run.1
    execute-Evolves = of_case run (cases u repository lawful workflow system others action_id p w)
      where
        of_case :
            (out : Result ExecutionReceipt × World)
            → Case u repository lawful workflow system others action_id p w out
            → Evolves lawful.view w out.1
        of_case out (denied e eq) = rw eq (Evolves-refl lawful.view w)
        of_case out (replays a r c there eq) = rw eq (Evolves-refl lawful.view w)
        of_case out (fails a e c s did eq) = rw eq (until_applied a)
        of_case out (wins a x r c s did won eq) = rw eq (saved-Evolves a r c s)
        of_case out (loses a current r s c st did lost found there eq) =
            rw eq (lost-Evolves a r c st)
        of_case out (stops a r e c s did failed (inl eq)) = rw eq (saved-Evolves a r c s)
        of_case out (stops a r e c s did failed (inr eq)) = rw eq (lost-Evolves a r c s)

    won :
        (a : GovernedAction) (r x : ExecutionReceipt)
        → Reading a
        → a.status ≡ ActionStatus.approved
        → (out : Result GovernedAction × World)
        → Saved lawful.view (executed_action a r) ActionStatus.approved (save_state a) out
        → (y : GovernedAction) → out.0 ≡ ok y
        → IsExecuted r out.1
    unfolding executed_action stored_receipt
    won a r x c s out (refused e eq same) y h = absurd (ground arith)
    won a r x c s out (unseen e hidden same) y h =
        let (b, there, ab) = (until_save a).advance action_id a c.read in
        let own_id : a.id ≡ action_id = keyed action_id a c.read in
        let hidden' = rw own_id at hidden in absurd (ground arith)
    won a r x c s out (stored old b held was q t eq shows) y h =
        let at_save : Advances a old = later a old c held in
        let own_id : a.id ≡ action_id = keyed action_id a c.read in
        record {
          role = c.role;
          before = a;
          read = c.read;
          tenant = c.tenant;
          cleared = inl s;
          new = b;
          holds = ground (arith, shows action_id);
          receipt = ground arith;
          since = Advances-trans a old b at_save (execution-Advances a old b r s at_save was q t);
        }

    lost :
        (a current : GovernedAction) (r s : ExecutionReceipt) (after : World)
        → Reading a
        → (a.status ≡ ActionStatus.approved) ⊎ (a.status ≡ ActionStatus.executed)
        → Evolves lawful.view w after
        → lawful.view after action_id ≡ ok current
        → stored_receipt current ≡ some s
        → IsExecuted s after
    lost a current r s after c cleared evolved found there =
        let (b, hb, ab) = evolved.advance action_id a c.read in
        let same : b ≡ current = ground arith in
        record {
          role = c.role;
          before = a;
          read = c.read;
          tenant = c.tenant;
          cleared = cleared;
          new = current;
          holds = found;
          receipt = there;
          since = rw same at ab;
        }

    -- If `execute` returns a receipt, then the principal may execute in the tenant of an action
    -- that it found approved or executed, and that action is stored as executed with exactly this
    -- receipt when the call ends.
    pub execute_ok : (r : ExecutionReceipt) → run.0 ≡ ok r → IsExecuted r run.1
    unfolding stored_receipt
    execute_ok r = of_case run (cases u repository lawful workflow system others action_id p w)
      where
        of_case :
            (out : Result ExecutionReceipt × World)
            → Case u repository lawful workflow system others action_id p w out
            → out.0 ≡ ok r
            → IsExecuted r out.1
        of_case out (denied e eq) h = absurd (ground arith)
        of_case out (replays a s c there eq) h = rw eq (
            lost a a s r w c (inr (ground arith)) (Evolves-refl lawful.view w) c.read
              (ground arith))
        of_case out (fails a e c s did eq) h = absurd (ground arith)
        of_case out (wins a x s c st did w eq) h =
            let same : s ≡ r = ground arith in
            rw (eq, ← same) (won a s s c st _ (lawful.save_lem _ _ _ _) x w)
        of_case out (loses a current q s c st did lose found there eq) h =
            let same : s ≡ r = ground arith in
            rw (eq, ← same) (lost a current q s _ c (inl st) (lost-Evolves a q c st) found there)
        of_case out (stops a q e c s did failed at) h = absurd (ground arith)
