-- ===== src/Governance/Service/Propose.antt =====
-- `GovernanceService.propose` over a repository with a transactional outbox.
use multi_agent_system.Base.{
  ℕ, Bool, true, ◌&&◌, ◌≡◌, inl, inr, arith, Bool-cases, ◌==◌, if◌then◌else◌,
}
use multi_agent_system.Exec.{
  Result, Result-cases, Error, ok, err, authorization_denied, value_error, idempotency_conflict,
}
use multi_agent_system.Persistence.{World, UuidLibrary, now_utc}
use multi_agent_system.Schemas.{
  Role, Principal, has_role, GovernedAction, SupplierCase, ReviewResult, ActionProposalRequest,
  are_valid_arguments,
}
use multi_agent_system.Governance.Interface.{ActionRepository, ApprovalWorkflow, SupplierSystem}
use multi_agent_system.Governance.Service.{
  propose, may_enter, proposal_for, proposed_event, start_message, start_workflow, require_role,
  require_tenant,
}

-- What `propose` makes of the repository's answer.
abbrev pub is_same_proposal : GovernedAction → GovernedAction → Bool
is_same_proposal a b = b.case_id == a.case_id && b.review_id == a.review_id

abbrev pub accepted : GovernedAction → Result (GovernedAction × Bool) → Result GovernedAction
accepted a (err e) = err e
accepted a (ok (b, created)) = if is_same_proposal a b then ok b else err idempotency_conflict

abbrev pub ticked : World → World
ticked w = (now_utc w).1

module _ (u : UuidLibrary) (repository : ActionRepository)
    (outbox : repository.uses_transactional_outbox ≡ true) (workflow : ApprovalWorkflow)
    (system : SupplierSystem) (others : ℕ → World → World) (c : SupplierCase)
    (review : ReviewResult) (request : ActionProposalRequest) (p : Principal) (w : World) where
  abbrev pub proposal : GovernedAction
  proposal = proposal_for u c review request p (w.host.clock w.host.clock_reads)

  -- What `propose` checks before it derives the action.
  pub record Passes : Type 0 where
    pub role : has_role p Role.analyst ≡ true
    pub tenant : may_enter p c.tenant_id ≡ true
    pub belongs : review.case_id ≡ c.id
    pub valid : are_valid_arguments proposal.arguments ≡ true

  abbrev pub stored : Result (GovernedAction × Bool) × World
  stored =
      repository.create_proposal proposal (proposed_event proposal p.subject)
        (start_message proposal) (others 0 (ticked w))

  pub data Case (out : Result GovernedAction × World) : Type 0 where
    denied : (e : Error) → out ≡ (err e, w) → Case out
    rejects : (e : Error) → out ≡ (err e, ticked w) → Case out
    creates : Passes → out ≡ (accepted proposal stored.0, stored.1) → Case out

  abbrev run : Result GovernedAction × World
  run = propose u repository workflow system others c review request p w

  creates_valid : Passes → Case run
  unfolding propose start_workflow require_role require_tenant may_enter
  creates_valid passes =
      let role = passes.role in
      let tenant = passes.tenant in
      let belongs = passes.belongs in
      let valid = passes.valid in
      elim (Result-cases stored.0) [
        | inl ((b, created), e) ↦ creates passes (ground arith)
        | inr (x, e) ↦ creates passes (ground arith)
      ]

  pub cases : Case run
  unfolding propose start_workflow require_role require_tenant may_enter
  cases = elim (Bool-cases (has_role p Role.analyst)) [
    | inr other_role ↦ denied authorization_denied (ground arith)
    | inl role ↦ elim (Bool-cases (may_enter p c.tenant_id)) [
      | inr other_tenant ↦ denied authorization_denied (ground arith)
      | inl tenant ↦ elim (Bool-cases (review.case_id == c.id)) [
        | inr other_case ↦ denied value_error (ground arith)
        | inl belongs ↦ elim (Bool-cases (are_valid_arguments proposal.arguments)) [
          | inr invalid ↦ rejects value_error (ground arith)
          | inl valid ↦
              creates_valid
                (record { role = role; tenant = tenant; belongs = ground arith; valid = valid })
        ]
      ]
    ]
  ]
