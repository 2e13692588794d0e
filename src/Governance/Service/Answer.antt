-- ===== src/Governance/Service/Answer.antt =====
-- What `decide` answers when `save_transition` has returned or raised, and where a decision leads.
use multi_agent_system.Base.{◌≡◌, ◌≢◌, ◌⊎◌, inl, inr, arith}
use multi_agent_system.Exec.{Result, Error, ok, err, action_state, transition_conflict}
use multi_agent_system.Persistence.{World}
use multi_agent_system.Schemas.{GovernedAction, ActionStatus, ApprovalDecision}
use multi_agent_system.Governance.Laws.{◌⟶*◌, approve, reject}
use multi_agent_system.Governance.Service.{decided_status}

-- What `decide` makes of the result of `save_transition`.
abbrev pub answer : GovernedAction → Result GovernedAction × World → Result GovernedAction × World
answer d (ok x, w) = (ok d, w)
answer d (err transition_conflict, w) = (err action_state, w)
answer d (err e, w) = (err e, w)

pub answer_refused :
    (d x : GovernedAction) (out : Result GovernedAction × World) {e : Error}
    → out.0 ≡ err e
    → (answer d out).0 ≢ ok x
answer_refused d x out eq h = ground arith

pub answer_stored :
    (d x y : GovernedAction) (out : Result GovernedAction × World)
    → out.0 ≡ ok x
    → (answer d out).0 ≡ ok y
    → d ≡ y
answer_stored d x y out eq h = ground arith

pub decided_lifecycle :
    {s t : ActionStatus}
    → s ≡ ActionStatus.pending_approval
    → (t ≡ ActionStatus.approved) ⊎ (t ≡ ActionStatus.rejected)
    → s ⟶* t
decided_lifecycle e (inl a) = rw (e, a) approve
decided_lifecycle e (inr r) = rw (e, r) reject

pub decided_status-ne-pending :
    (d : ApprovalDecision) → decided_status d ≢ ActionStatus.pending_approval
unfolding decided_status
decided_status-ne-pending d h = ground arith
