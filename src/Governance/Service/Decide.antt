-- ===== src/Governance/Service/Decide.antt =====
-- `GovernanceService.decide` against the contract of its repository, whatever other requests do
-- between its read and its write.
use multi_agent_system.Base.{
  ℕ, Uuid, some, true, false, ◌≡◌, ◌≢◌, refl, inl, inr, arith, Bool-cases, str_eq, str_eq_iff,
}
use multi_agent_system.Exec.{
  Result, Result-cases, Error, ok, err, authorization_denied, action_state,
}
use multi_agent_system.Persistence.{World, UuidLibrary, now_utc}
use multi_agent_system.Schemas.{
  Role, Principal, has_role, GovernedAction, ActionStatus, ApprovalRequest, same_status,
}
use multi_agent_system.Governance.Interface.{ActionRepository, ApprovalWorkflow, SupplierSystem}
use multi_agent_system.Governance.Laws.{
  Saved, SameProposal, SameTransition, Advances, Evolves, IsKeyed, IsLawful, IsPolite,
  Saved-Evolves, Evolves_of_same, Evolves-trans, Evolves-refl, refused, unseen, stored,
}
use multi_agent_system.Governance.Service.Answer.{
  answer, answer_refused, answer_stored, decided_lifecycle,
}
use multi_agent_system.Governance.Service.{
  decided_status, decide, decided_action, decided_event, may_enter,
}

abbrev pub ticked : World → World
ticked w = (now_utc w).1

module _ (u : UuidLibrary) (repository : ActionRepository) (lawful : IsLawful repository)
    (workflow : ApprovalWorkflow) (system : SupplierSystem) (others : ℕ → World → World)
    (action_id : Uuid) (request : ApprovalRequest) (p : Principal) (w : World) where
  -- The decision that `decide` tries to save, if the action is read as `a`.
  abbrev pub decision : GovernedAction → GovernedAction
  decision a = decided_action a request p.subject (w.host.clock w.host.clock_reads)

  -- What `decide` checks of the action that it has read.
  pub record Passes (a : GovernedAction) : Type 0 where
    pub role : has_role p Role.approver ≡ true
    pub read : lawful.view w action_id ≡ ok a
    pub tenant : may_enter p a.tenant_id ≡ true
    pub separate : str_eq a.proposer_id p.subject ≡ false
    pub pending : same_status a.status ActionStatus.pending_approval ≡ true

  -- Either a check fails and nothing has happened, or the decision is handed to the repository.
  pub data Case (out : Result GovernedAction × World) : Type 0 where
    denied : (e : Error) → out ≡ (err e, w) → Case out
    saves :
        (a : GovernedAction)
        → Passes a
        → out
          ≡ answer (decision a) (
              repository.save_transition
                (decision a)
                (decided_event (decision a) p.subject)
                ActionStatus.pending_approval
                (others 0 (ticked w)))
        → Case out

  abbrev run : Result GovernedAction × World
  run = decide u repository workflow system others action_id request p w

  read_case :
      (a : GovernedAction)
      → has_role p Role.approver ≡ true
      → lawful.view w action_id ≡ ok a
      → Case run
  unfolding decide
  read_case a role read = elim (Bool-cases (may_enter p a.tenant_id)) [
    | inl tenant ↦ elim (Bool-cases (str_eq a.proposer_id p.subject)) [
      | inl own ↦ denied authorization_denied (ground (arith, lawful.get_lem action_id w))
      | inr separate ↦ elim (Bool-cases (same_status a.status ActionStatus.pending_approval)) [
        | inl pending ↦
            saves a
              (record {
                role = role;
                read = read;
                tenant = tenant;
                separate = separate;
                pending = pending;
              })
              (ground (arith, lawful.get_lem action_id w))
        | inr other ↦ denied action_state (ground (arith, lawful.get_lem action_id w))
      ]
    ]
    | inr foreign ↦ denied authorization_denied (ground (arith, lawful.get_lem action_id w))
  ]

  pub cases : Case run
  unfolding decide
  cases = elim (Bool-cases (has_role p Role.approver)) [
    | inl role ↦ elim (Result-cases (lawful.view w action_id)) [
      | inl (a, read) ↦ read_case a role read
      | inr (e, missing) ↦ denied e (ground (arith, lawful.get_lem action_id w))
    ]
    | inr none ↦ denied authorization_denied (ground arith)
  ]

  -- What a decision `d` that `decide` returns stands for.
  pub record IsSeparated (d : GovernedAction) (after : World) : Type 0 where
    pub role : has_role p Role.approver ≡ true
    pub tenant : may_enter p d.tenant_id ≡ true
    pub separate : d.proposer_id ≢ p.subject
    pub approver : d.approver_id ≡ some p.subject
    pub outcome : d.status ≡ decided_status request.decision
    pub old : GovernedAction
    pub held : lawful.view (others 0 (ticked w)) action_id ≡ ok old
    pub was_pending : old.status ≡ ActionStatus.pending_approval
    pub new : GovernedAction
    pub holds : lawful.view after action_id ≡ ok new
    pub proposal : SameProposal old new
    pub transition : SameTransition d new

  -- The saved decision advances whatever the store holds by then, if it is still pending.
  decision-Advances :
      (a old b : GovernedAction)
      → SameProposal a old
      → old.status ≡ ActionStatus.pending_approval
      → (SameProposal old (decision a) → SameProposal old b)
      → SameTransition (decision a) b
      → Advances old b
  unfolding decided_action
  decision-Advances a old b same was_pending proposal moved = record {
    proposal = proposal (ground arith);
    lifecycle = decided_lifecycle was_pending (ground arith);
    decision = λ h. absurd (h was_pending);
    receipt = λ h. cc;
  }

  state_of_answer :
      (d : GovernedAction) (out : Result GovernedAction × World) → (answer d out).1 ≡ out.1
  state_of_answer d out = ground arith

  module _ (polite : IsPolite lawful.view others) (keyed : IsKeyed lawful.view w) where
    ticked-Evolves : Evolves lawful.view w (ticked w)
    ticked-Evolves = Evolves_of_same lawful.view w (ticked w) (λ i. lawful.view_of_host _ i w)

    before_save : Evolves lawful.view w (others 0 (ticked w))
    before_save = Evolves-trans lawful.view w (ticked w) _ ticked-Evolves (polite 0 (ticked w))

    -- The action that the repository finds is the one that was read, at a later time.
    later :
        (a old : GovernedAction)
        → Passes a
        → lawful.view (others 0 (ticked w)) (decision a).id ≡ ok old
        → Advances a old
    unfolding decided_action
    later a old c h =
        let (b, hb, ab) = before_save.advance action_id a c.read in
        let own_id : a.id ≡ action_id = keyed action_id a c.read in
        let same : b ≡ old = ground arith in rw same at ab

    saves-Evolves :
        (a : GovernedAction)
        → Passes a
        → Evolves lawful.view w
            (repository.save_transition
              (decision a)
              (decided_event (decision a) p.subject)
              ActionStatus.pending_approval
              (others 0 (ticked w))).1
    saves-Evolves a c = Evolves-trans lawful.view w (others 0 (ticked w)) _ before_save (
        Saved-Evolves lawful.view (decision a) ActionStatus.pending_approval (others 0 (ticked w)) _
          (before_save.keyed keyed)
          (λ old b h s q t. decision-Advances a old b ((later a old c h).proposal) s q t)
          (lawful.save_lem (decision a) _ _ _))

    -- If the requests that run in between only advance actions, so does a call of `decide`:
    -- proposals are immutable, the status follows the lifecycle, and decisions and receipts are
    -- never replaced.
    pub decide-Evolves : Evolves lawful.view w run.1
    decide-Evolves = of_case run cases
      where
        of_case : (out : Result GovernedAction × World) → Case out → Evolves lawful.view w out.1
        of_case out (denied e eq) = rw eq (Evolves-refl lawful.view w)
        of_case out (saves a c eq) = rw (eq, state_of_answer (decision a) _) (saves-Evolves a c)

    -- If `decide` returns an action, then the principal may approve in its tenant and did not
    -- propose it, and the repository held it as pending at the moment of the write and holds the
    -- returned decision of that principal afterwards.
    pub decide_ok : (d : GovernedAction) → run.0 ≡ ok d → IsSeparated d run.1
    unfolding decided_action
    decide_ok d = of_case run cases
      where
        of_saved :
            (a : GovernedAction)
            → Passes a
            → (out : Result GovernedAction × World)
            → Saved lawful.view (decision a) ActionStatus.pending_approval (others 0 (ticked w)) out
            → (answer (decision a) out).0 ≡ ok d
            → IsSeparated d out.1
        of_saved a c out (refused e eq same) h = absurd (answer_refused (decision a) d out eq h)
        of_saved a c out (unseen e hidden same) h =
            let (b, there, ab) = before_save.advance action_id a c.read in
            let own_id : a.id ≡ action_id = keyed action_id a c.read in
            let hidden' = rw own_id at hidden in absurd (ground arith)
        of_saved a c out (stored old b held pending q t eq shows) h =
            let same : decision a ≡ d = answer_stored (decision a) (decision a) d out eq h in
            let at_later : Advances a old = later a old c held in
            let own_id : a.id ≡ action_id = keyed action_id a c.read in
            let apart : a.proposer_id ≢ p.subject = λ e. cc ((str_eq_iff _ _).1 e, c.separate) in
            rw (← same) (record {
              role = c.role;
              tenant = c.tenant;
              separate = apart;
              approver = refl;
              outcome = refl;
              old = old;
              held = rw own_id at held;
              was_pending = pending;
              new = b;
              holds = ground (arith, shows action_id);
              proposal = q (ground (arith, at_later.proposal));
              transition = t;
            })

        of_case :
            (out : Result GovernedAction × World) → Case out → out.0 ≡ ok d → IsSeparated d out.1
        of_case out (denied e eq) h = absurd (ground arith)
        of_case out (saves a c eq) h =
            rw (eq, state_of_answer (decision a) _)
              (of_saved a c _ (lawful.save_lem (decision a) _ _ _) (rw eq at h))
