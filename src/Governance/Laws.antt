-- ===== src/Governance/Laws.antt =====
-- What the governance service relies on in an action repository: the contract that both
-- implementations of packages/governance/repositories.py fulfil, and the order in which an action
-- may change.
use multi_agent_system.Base.{
  ℕ, Bool-cases, inl, inr, Uuid, ◌≡◌, ◌≢◌, refl, sym, ◌==◌, ◌∙◌, if◌then◌else◌, arith,
}
use multi_agent_system.Exec.{Result, Error, ok, err, transition_conflict}
use multi_agent_system.Persistence.{World, Host}
use multi_agent_system.Schemas.{GovernedAction, ActionStatus, AuditEventCreate}
use multi_agent_system.Governance.Interface.{ActionRepository}

-- What is fixed when the action is proposed.
pub record SameProposal (a b : GovernedAction) : Type 0 where
  pub same_id : b.id ≡ a.id
  pub same_case_id : b.case_id ≡ a.case_id
  pub same_review_id : b.review_id ≡ a.review_id
  pub same_tenant_id : b.tenant_id ≡ a.tenant_id
  pub same_tool_name : b.tool_name ≡ a.tool_name
  pub same_arguments : b.arguments ≡ a.arguments
  pub same_proposer_id : b.proposer_id ≡ a.proposer_id
  pub same_idempotency_key : b.idempotency_key ≡ a.idempotency_key
  pub same_created_at : b.created_at ≡ a.created_at

-- What a transition writes.
pub record SameTransition (a b : GovernedAction) : Type 0 where
  pub same_status : b.status ≡ a.status
  pub same_approver_id : b.approver_id ≡ a.approver_id
  pub same_approval_comment : b.approval_comment ≡ a.approval_comment
  pub same_execution_receipt : b.execution_receipt ≡ a.execution_receipt
  pub same_decided_at : b.decided_at ≡ a.decided_at
  pub same_executed_at : b.executed_at ≡ a.executed_at

-- The lifecycle of an action, any number of steps of it.
infix 40 ◌⟶*◌
pub data ◌⟶*◌ : ActionStatus → ActionStatus → Type 0 where
  stay : {s : ActionStatus} → s ⟶* s
  approve : ActionStatus.pending_approval ⟶* ActionStatus.approved
  reject : ActionStatus.pending_approval ⟶* ActionStatus.rejected
  execute : ActionStatus.approved ⟶* ActionStatus.executed
  approve_execute : ActionStatus.pending_approval ⟶* ActionStatus.executed

pub ⟶*-trans : {s t u : ActionStatus} → s ⟶* t → t ⟶* u → s ⟶* u
⟶*-trans stay q = q
⟶*-trans approve stay = approve
⟶*-trans approve execute = approve_execute
⟶*-trans reject stay = reject
⟶*-trans execute stay = execute
⟶*-trans approve_execute stay = approve_execute

-- `b` is `a` at a later time: the proposal is the same, the status has followed the lifecycle, the
-- human decision and the receipt stay once they are there.
pub record Advances (a b : GovernedAction) : Type 0 where
  pub proposal : SameProposal a b
  pub lifecycle : a.status ⟶* b.status
  pub decision : a.status ≢ ActionStatus.pending_approval → b.approver_id ≡ a.approver_id
  pub receipt : a.status ≡ ActionStatus.executed → b.execution_receipt ≡ a.execution_receipt

pub Advances-refl : (a : GovernedAction) → Advances a a
Advances-refl a = record {
  proposal = ground arith;
  lifecycle = stay;
  decision = λ h. refl;
  receipt = λ h. refl;
}

pub executed_stays :
    {s t : ActionStatus} → s ⟶* t → s ≡ ActionStatus.executed → t ≡ ActionStatus.executed
executed_stays stay h = h
executed_stays approve h = cc
executed_stays reject h = cc
executed_stays execute h = cc
executed_stays approve_execute h = cc

pub decided_stays :
    {s t : ActionStatus}
    → s ⟶* t
    → s ≢ ActionStatus.pending_approval
    → t ≢ ActionStatus.pending_approval
decided_stays stay h e = h e
decided_stays approve h e = h refl
decided_stays reject h e = h refl
decided_stays execute h e = cc
decided_stays approve_execute h e = h refl

pub Advances-trans : (a b c : GovernedAction) → Advances a b → Advances b c → Advances a c
Advances-trans a b c p q = record {
  proposal = ground arith;
  lifecycle = ⟶*-trans p.lifecycle q.lifecycle;
  decision = λ h. q.decision (decided_stays p.lifecycle h) ∙ p.decision h;
  receipt = λ h. q.receipt (executed_stays p.lifecycle h) ∙ p.receipt h;
}

-- What `get` returns in each state, as a function of the identifier.
abbrev pub View : Type 0
View = World → Uuid → Result GovernedAction

-- Every action stands under its own identifier.
abbrev pub IsKeyed : View → World → Type 0
IsKeyed view w = (i : Uuid) (a : GovernedAction) → view w i ≡ ok a → a.id ≡ i

-- One state is reached from another by requests that follow the policy: every action that could be
-- read can still be read and has only advanced, and identifiers stay right.
pub record Evolves (view : View) (w w' : World) : Type 0 where
  pub advance :
      (i : Uuid) (a : GovernedAction)
      → view w i ≡ ok a
      → (b : GovernedAction) × (view w' i ≡ ok b) × Advances a b
  pub keyed : IsKeyed view w → IsKeyed view w'

pub Evolves-refl : (view : View) (w : World) → Evolves view w w
Evolves-refl view w = record { advance = λ i a h. (a, h, Advances-refl a); keyed = λ k. k }

-- Steps that change nothing that `get` shows.
pub Evolves_of_same :
    (view : View) (w w' : World) → ((i : Uuid) → view w' i ≡ view w i) → Evolves view w w'
Evolves_of_same view w w' same = record {
  advance = λ i a h. (a, same i ∙ h, Advances-refl a);
  keyed = λ k i a h. k i a (sym (same i) ∙ h);
}

pub Evolves-trans :
    (view : View) (w₁ w₂ w₃ : World) → Evolves view w₁ w₂ → Evolves view w₂ w₃ → Evolves view w₁ w₃
Evolves-trans view w₁ w₂ w₃ p q = record {
  advance = λ i a h.
      let (b, hb, ab) = p.advance i a h in
      let (c, hc, bc) = q.advance i b hb in (c, hc, Advances-trans a b c ab bc);
  keyed = λ k. q.keyed (p.keyed k);
}

-- Other requests follow the policy too.
abbrev pub IsPolite : View → (ℕ → World → World) → Type 0
IsPolite view others = (n : ℕ) (w : World) → Evolves view w (others n w)

-- The outcomes of `save_transition a ev wanted`: it raises and changes no action, the action that
-- it writes cannot be read before nor after, or it writes an action of the wanted status.
pub data Saved (view : View) (a : GovernedAction) (wanted : ActionStatus) (w : World)
    (out : Result GovernedAction × World) : Type 0 where
  refused :
      (e : Error)
      → out.0 ≡ err e
      → ((i : Uuid) → view out.1 i ≡ view w i)
      → Saved view a wanted w out
  unseen :
      (e : Error)
      → view w a.id ≡ err e
      → ((i : Uuid) → view out.1 i ≡ view w i)
      → Saved view a wanted w out
  stored :
      (old b : GovernedAction)
      → view w a.id ≡ ok old
      → old.status ≡ wanted
      → (SameProposal old a → SameProposal old b)
      → SameTransition a b
      → out.0 ≡ ok a
      → ((i : Uuid) → view out.1 i ≡ (if a.id == i then ok b else view w i))
      → Saved view a wanted w out

pub record IsLawful (r : ActionRepository) : Type 0 where
  pub view : View
  pub view_of_host : (h : Host) (i : Uuid) (w : World) → view (record w { host = h }) i ≡ view w i
  pub get_lem : (i : Uuid) (w : World) → r.get i w ≡ (view w i, w)
  pub save_lem :
      (a : GovernedAction) (ev : AuditEventCreate) (wanted : ActionStatus) (w : World)
      → Saved view a wanted w (r.save_transition a ev wanted w)
  pub save_conflict :
      (a old : GovernedAction) (ev : AuditEventCreate) (wanted : ActionStatus) (w : World)
      → view w a.id ≡ ok old
      → old.status ≢ wanted
      → r.save_transition a ev wanted w ≡ (err transition_conflict, w)

-- A transition that advances the action it finds makes the state evolve.
pub Saved-Evolves :
    (view : View) (d : GovernedAction) (wanted : ActionStatus) (w : World)
    (out : Result GovernedAction × World)
    → IsKeyed view w
    → ((old b : GovernedAction)
        → view w d.id ≡ ok old
        → old.status ≡ wanted
        → (SameProposal old d → SameProposal old b)
        → SameTransition d b
        → Advances old b)
    → Saved view d wanted w out
    → Evolves view w out.1
Saved-Evolves view d wanted w out k adv (refused e r same) = Evolves_of_same view w out.1 same
Saved-Evolves view d wanted w out k adv (unseen e hidden same) = Evolves_of_same view w out.1 same
Saved-Evolves view d wanted w out k adv (stored old b h s p t r shows) = record {
  advance = λ i a v. elim (Bool-cases (d.id == i)) [
    | inl here ↦ (b, ground (arith, shows i), ground (arith, shows i, moved))
    | inr elsewhere ↦ (a, ground (arith, shows i), Advances-refl a)
  ];
  keyed = λ keyed i a v. ground (arith, shows i, moved.proposal.same_id, k d.id old h, keyed i a);
}
  where
    moved : Advances old b
    moved = adv old b h s p t
