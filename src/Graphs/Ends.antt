-- ===== src/Graphs/Ends.antt =====
-- How an execution stands when nothing is left to run.
use multi_agent_system.Base.{
  String, Uuid, ap, str_eq, str_eq_iff, Option, none, some, Bool, true, false, ◌≡◌, refl, inl, inr,
  arith, DateTime, if◌then◌else◌,
}
use multi_agent_system.Schemas.{
  SupplierCase, ReviewExecutionStatus, ReviewInterrupt, ReviewResult, Recommendation,
  EvidenceConfirmation,
}
use multi_agent_system.Graphs.State.{ReviewGraphState, Next}
use multi_agent_system.Graphs.Nodes.{is_reject}
use multi_agent_system.Graphs.Steps.{is_at_rest}
use multi_agent_system.Graphs.Workflow.{review_result, initial_state, is_in_scope}
use multi_agent_system.Graphs.Invariant.{HasReached, origin}
use multi_agent_system.Graphs.Answers.{HasAnswer}
use multi_agent_system.Graphs.Consistent.{HasResult, status_at}

pub completed_result :
    (s : ReviewGraphState) (status : ReviewExecutionStatus) (result : Option ReviewResult)
    → HasResult s status result
    → status ≡ ReviewExecutionStatus.completed
    → (r : Recommendation) × (t : DateTime) × (s.recommendation ≡ some r)
      × (result ≡ some (review_result s r t))
completed_result s ReviewExecutionStatus.completed result h done = h
completed_result s ReviewExecutionStatus.running result h done = absurd (ground arith)
completed_result s ReviewExecutionStatus.awaiting_input result h done = absurd (ground arith)
completed_result s ReviewExecutionStatus.cancelled result h done = absurd (ground arith)

-- Nobody had to be asked.
pub ends_completed :
    (s : ReviewGraphState) (n : Next)
    → HasReached s n
    → is_at_rest n ≡ true
    → s.require_evidence_confirmation ≡ false
    → status_at s n ≡ ReviewExecutionStatus.completed
ends_completed s Next.specialists h rest free = absurd (ground arith)
ends_completed s Next.unfinished h rest free = absurd (ground arith)
ends_completed s Next.evidence_confirmation h rest free = absurd (ground arith)
ends_completed s Next.synthesize h rest free = absurd (ground arith)
ends_completed s (Next.awaiting q) (opened, asked, required, request) rest free =
    absurd (ground arith)
ends_completed s Next.end (inl (c, r, required, at_time, rejected)) rest free =
    absurd (ground arith)
ends_completed s Next.end (inr (c, r, at_time, confirmed)) rest free = ground arith

-- Somebody has to be asked.
pub ends_awaiting :
    (s : ReviewGraphState) (n : Next)
    → HasReached s n
    → is_at_rest n ≡ true
    → s.require_evidence_confirmation ≡ true
    → s.evidence_confirmation ≡ none
    → (q : ReviewInterrupt) × (n ≡ Next.awaiting q)
ends_awaiting s Next.specialists h rest required unasked = absurd (ground arith)
ends_awaiting s Next.unfinished h rest required unasked = absurd (ground arith)
ends_awaiting s Next.evidence_confirmation h rest required unasked = absurd (ground arith)
ends_awaiting s Next.synthesize h rest required unasked = absurd (ground arith)
ends_awaiting s (Next.awaiting q) h rest required unasked = (q, refl)
ends_awaiting s Next.end (inl (c, r, k, at_time, (a, given, rejected))) rest required unasked =
    absurd (ground arith)
ends_awaiting s Next.end (inr (c, r, at_time, inl free)) rest required unasked =
    absurd (ground arith)
ends_awaiting s Next.end (inr (c, r, at_time, inr (a, given, fine))) rest required unasked =
    absurd (ground arith)

abbrev pub answered_status : EvidenceConfirmation → ReviewExecutionStatus
answered_status a =
    if is_reject a.decision
    then ReviewExecutionStatus.cancelled
    else ReviewExecutionStatus.completed

-- Somebody has answered.
pub ends_answered :
    (a : EvidenceConfirmation) (s : ReviewGraphState) (n : Next)
    → HasReached s n
    → HasAnswer a s n
    → is_at_rest n ≡ true
    → s.require_evidence_confirmation ≡ true
    → status_at s n ≡ answered_status a
ends_answered a s Next.synthesize h given rest required = absurd (ground arith)
ends_answered a s Next.specialists h given rest required = elim given [ ]
ends_answered a s Next.unfinished h given rest required = elim given [ ]
ends_answered a s Next.evidence_confirmation h given rest required = elim given [ ]
ends_answered a s (Next.awaiting q) h given rest required = elim given [ ]
ends_answered a s Next.end (inl (c, r, k, at_time, (a', given', rejected))) given rest required =
    ground arith
ends_answered a s Next.end (inr (c, r, at_time, inl free)) given rest required =
    absurd (ground arith)
ends_answered a s Next.end (inr (c, r, at_time, inr (a', given', fine))) given rest required =
    ground arith

pub in_scope :
    (backend_name : String) (c : SupplierCase) (i : Uuid) (required : Bool) (started_at : DateTime)
    (s : ReviewGraphState)
    → origin s ≡ origin (initial_state backend_name c i required started_at)
    → is_in_scope s c i ≡ true
unfolding is_in_scope initial_state
in_scope backend_name c i required started_at s same =
    let tenant : s.tenant_id ≡ c.tenant_id = ap (λ o. o.tenant_id) same in
    let about : s.case_id ≡ c.id = ap (λ o. o.case_id) same in
    let execution : s.execution_id ≡ i = ap (λ o. o.execution_id) same in
    let texts : str_eq s.tenant_id c.tenant_id ≡ true =
      (str_eq_iff s.tenant_id c.tenant_id).1 tenant in
    ground arith
