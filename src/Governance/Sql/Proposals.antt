-- ===== src/Governance/Sql/Proposals.antt =====
-- `propose` over the PostgreSQL repository: what it returns, and the transactional outbox.
use multi_agent_system.Base.{
  ℕ, Uuid, Bool, true, ◌&&◌, ◌||◌, ◌≡◌, refl, inl, inr, arith, ◌==◌, str_eq, str_eq_iff, List, [],
  ◌∷◌, ◌++◌, any, All, All-mono, All-append,
}
use multi_agent_system.Exec.{Result, ok, err}
use multi_agent_system.Persistence.{World, OutboxMessageRecord, UuidLibrary}
use multi_agent_system.Schemas.{
  Role, Principal, has_role, GovernedAction, SupplierCase, ReviewResult, ActionProposalRequest,
  AuditEventCreate, OutboxMessageCreate, approval_workflow_start,
}
use multi_agent_system.Governance.Interface.{ApprovalWorkflow, SupplierSystem}
use multi_agent_system.Governance.Service.{
  propose, may_enter, proposal_for, start_message, proposed_event,
}
use multi_agent_system.Governance.Service.Propose.{
  cases, Case, accepted, denied, rejects, creates, ticked,
}
use multi_agent_system.Governance.Sql.{
  sql_repository, create_proposal, record_from_action, outbox_record,
}
use multi_agent_system.Governance.Sql.Atomicity.{create_proposal_atomic, IsOfOthers, drawn}

abbrev pub starts : Uuid → OutboxMessageRecord → Bool
starts i m = m.aggregate_id == i && str_eq m.event_type approval_workflow_start

-- The outbox holds a message that starts the approval workflow of the action.
abbrev pub has_start : List OutboxMessageRecord → Uuid → Bool
has_start messages i = any (starts i) messages

-- Each action in the database has its start message in the outbox.
abbrev pub IsOutboxed : World → Type 0
IsOutboxed w =
    All (λ r. has_start w.database.outbox_messages r.id ≡ true) w.database.governed_actions

any-snoc :
    (p : OutboxMessageRecord → Bool) (m : OutboxMessageRecord) (ms : List OutboxMessageRecord)
    → (any p (ms ++ m ∷ []) ≡ (any p ms || p m))
any-snoc p m [] = ground arith
any-snoc p m (n ∷ ms) = ground (arith, any-snoc p m ms)

module _ (others : World → World) (keeps : (v : World) → IsOutboxed v → IsOutboxed (others v)) where
  -- A transaction that adds an action adds its start message too.
  pub create_proposal-IsOutboxed :
      (a : GovernedAction) (ev : AuditEventCreate) (message : OutboxMessageCreate) (w : World)
      → message.aggregate_id ≡ a.id
      → message.event_type ≡ approval_workflow_start
      → IsOutboxed w
      → IsOutboxed (create_proposal others a ev message w).1
  unfolding record_from_action outbox_record
  create_proposal-IsOutboxed a ev message w own is_start h =
      let text = (str_eq_iff message.event_type approval_workflow_start).1 is_start in
      elim (create_proposal_atomic others a ev message w) [
        | inl added ↦ rw added (
            All-append _ _ (_ ∷ [])
              (All-mono _ _ (λ r e. rw (any-snoc _ _ _, e) refl) _ (keeps (drawn w) h))
              (rw any-snoc (ground arith), tt))
        | inr (inl same, _) ↦ rw same h
        | inr (inr same, _) ↦ rw same (keeps (drawn w) h)
      ]

  module _ (u : UuidLibrary) (workflow : ApprovalWorkflow) (system : SupplierSystem)
      (others' : ℕ → World → World)
      (keeps' : (n : ℕ) (v : World) → IsOutboxed v → IsOutboxed (others' n v)) (c : SupplierCase)
      (review : ReviewResult) (request : ActionProposalRequest) (p : Principal) (w : World) where
    abbrev run : Result GovernedAction × World
    run = propose u (sql_repository others) workflow system others' c review request p w

    -- No proposal is lost on the way to its approval workflow: if each action has its start message
    -- in the outbox, then each action still has it after `propose`, whatever it answers, as long as
    -- the transactions that run in between keep this too.
    pub propose-IsOutboxed : IsOutboxed w → IsOutboxed run.1
    unfolding start_message sql_repository
    propose-IsOutboxed h =
        of_case run
          (cases u (sql_repository others) refl workflow system others' c review request p w)
      where
        of_case :
            (out : Result GovernedAction × World)
            → Case u (sql_repository others) refl workflow system others' c review request p w out
            → IsOutboxed out.1
        of_case out (denied e eq) = rw eq h
        of_case out (rejects e eq) = rw eq h
        of_case out (creates passes eq) = rw eq (
            create_proposal-IsOutboxed _ _ _ (others' 0 (ticked w)) refl refl
              (keeps' 0 (ticked w) h))

-- What an action that `propose` returns has to do with the request.
pub record IsProposed (c : SupplierCase) (review : ReviewResult) (request : ActionProposalRequest)
    (p : Principal) (d : GovernedAction) : Type 0 where
  pub role : has_role p Role.analyst ≡ true
  pub tenant : may_enter p c.tenant_id ≡ true
  pub belongs : review.case_id ≡ c.id
  pub of_case : d.case_id ≡ c.id
  pub of_review : d.review_id ≡ review.review_id
  pub of_tenant : d.tenant_id ≡ c.tenant_id
  pub of_key : d.idempotency_key ≡ request.idempotency_key

-- An answer of the repository that bears the tenant and the key of `a`.
abbrev IsNamed : GovernedAction → Result (GovernedAction × Bool) → Type 0
IsNamed a (err e) = Unit
IsNamed a (ok (b, created)) = (b.tenant_id ≡ a.tenant_id) × (b.idempotency_key ≡ a.idempotency_key)

accepted_lem :
    (a d : GovernedAction) (r : Result (GovernedAction × Bool))
    → IsNamed a r
    → accepted a r ≡ ok d
    → (d.case_id ≡ a.case_id)
      × (d.review_id ≡ a.review_id)
      × (d.tenant_id ≡ a.tenant_id)
      × (d.idempotency_key ≡ a.idempotency_key)
accepted_lem a d (err e) named h = absurd (ground arith)
accepted_lem a d (ok (b, created)) named h =
    let own_tenant = named.0 in
    let own_key = named.1 in (ground arith, ground arith, ground arith, ground arith)

create_proposal-IsNamed :
    (others : World → World) (a : GovernedAction) (ev : AuditEventCreate)
    (message : OutboxMessageCreate) (w : World)
    → IsNamed a (create_proposal others a ev message w).0
create_proposal-IsNamed others a ev message w =
    elim (create_proposal_atomic others a ev message w) [
      | inl added ↦ rw added (refl, refl)
      | inr (_, o) ↦ of_others _ o
    ]
  where
    of_others :
        (r : Result (GovernedAction × Bool)) → IsOfOthers others a ev message w r → IsNamed a r
    of_others (err e) o = tt
    of_others (ok (b, created)) o = (o.1, o.2)

module _ (others : World → World) (u : UuidLibrary) (workflow : ApprovalWorkflow)
    (system : SupplierSystem) (others' : ℕ → World → World) (c : SupplierCase)
    (review : ReviewResult) (request : ActionProposalRequest) (p : Principal) (w : World) where
  -- If `propose` returns an action, new or found under the request's key, then the principal is an
  -- analyst who may enter the tenant of the case, the review is of the case, and the action is for
  -- this case and review, in the tenant of the case and under the key of the request.
  pub propose_ok :
      (d : GovernedAction)
      → (propose u (sql_repository others) workflow system others' c review request p w).0 ≡ ok d
      → IsProposed c review request p d
  unfolding sql_repository proposal_for
  propose_ok d h =
      of_case _ (cases u (sql_repository others) refl workflow system others' c review request p w)
        h
    where
      of_case :
          (out : Result GovernedAction × World)
          → Case u (sql_repository others) refl workflow system others' c review request p w out
          → out.0 ≡ ok d
          → IsProposed c review request p d
      of_case out (denied e eq) k = absurd (ground arith)
      of_case out (rejects e eq) k = absurd (ground arith)
      of_case out (creates passes eq) k =
          let a = proposal_for u c review request p (w.host.clock w.host.clock_reads) in
          let role = passes.role in
          let tenant = passes.tenant in
          let belongs = passes.belongs in
          let made = others' 0 (ticked w) in
          let same =
            accepted_lem a d _
              (create_proposal-IsNamed others a (proposed_event a p.subject) (start_message a) made)
              (ground arith) in
          record {
            role = role;
            tenant = tenant;
            belongs = belongs;
            of_case = same.0;
            of_review = same.1;
            of_tenant = same.2;
            of_key = same.3;
          }
