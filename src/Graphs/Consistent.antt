-- ===== src/Graphs/Consistent.antt =====
-- What `SupplierReviewWorkflow` reports of an execution.
use multi_agent_system.Base.{
  Option, none, some, Bool, ◌≡◌, refl, inl, inr, arith, Uuid, DateTime, if◌then◌else◌,
}
use multi_agent_system.Exec.{ok}
use multi_agent_system.Persistence.{UuidLibrary}
use multi_agent_system.Schemas.{
  SupplierCase, ReviewExecution, ReviewExecutionStatus, ReviewInterrupt, ReviewResult,
  Recommendation,
}
use multi_agent_system.Graphs.State.{ReviewGraphState, Next, Checkpoint, snapshot_of}
use multi_agent_system.Graphs.Nodes.{ModelBackend, Parsers}
use multi_agent_system.Graphs.Steps.{Reaches}
use multi_agent_system.Graphs.Workflow.{
  initial_state, execution_from_snapshot, execution_from_values, execution_with, result_from_state,
  review_result,
}
use multi_agent_system.Graphs.Invariant.{HasReached, Inv, origin, Reaches-Inv}

-- The status, by what is to run next.
abbrev pub status_at : ReviewGraphState → Next → ReviewExecutionStatus
status_at s (Next.awaiting r) = ReviewExecutionStatus.awaiting_input
status_at s Next.end =
    if s.cancelled then ReviewExecutionStatus.cancelled else ReviewExecutionStatus.completed
status_at s _ = ReviewExecutionStatus.running

-- The request for an answer, while there is one.
abbrev pub request_at : Next → Option ReviewInterrupt
request_at (Next.awaiting r) = some r
request_at _ = none

-- A completed execution has the result with its findings and recommendation, other ones have none.
abbrev pub HasResult : ReviewGraphState → ReviewExecutionStatus → Option ReviewResult → Type 0
HasResult s ReviewExecutionStatus.completed result =
    (r : Recommendation) × (t : DateTime) × (s.recommendation ≡ some r)
    × (result ≡ some (review_result s r t))
HasResult s _ result = result ≡ none

abbrev pub IsReport : Checkpoint → Type 0
IsReport c =
    (e : ReviewExecution) × (execution_from_snapshot (snapshot_of (some c)) ≡ ok e)
    × (e.execution_id ≡ c.values.execution_id)
    × (e.case_id ≡ c.values.case_id)
    × (e.status ≡ status_at c.values c.next)
    × (e.interrupt ≡ request_at c.next)
    × HasResult c.values e.status e.result

abbrev at : ReviewGraphState → Next → Checkpoint
at s n = record { values = s; next = n }

pub report : (s : ReviewGraphState) (n : Next) → HasReached s n → IsReport (at s n)
unfolding execution_from_snapshot execution_from_values execution_with result_from_state
report s Next.specialists ((r, t, c), asked, empty) = (
  execution_with s none ReviewExecutionStatus.running none,
  ground arith,
  refl,
  refl,
  refl,
  refl,
  refl,
)
report s Next.unfinished ((r, t, c), asked) = (
  execution_with s none ReviewExecutionStatus.running none,
  ground arith,
  refl,
  refl,
  refl,
  refl,
  refl,
)
report s Next.evidence_confirmation ((r, t, c), asked) = (
  execution_with s none ReviewExecutionStatus.running none,
  ground arith,
  refl,
  refl,
  refl,
  refl,
  refl,
)
report s Next.synthesize ((r, t, c), confirmed) = (
  execution_with s none ReviewExecutionStatus.running none,
  ground arith,
  refl,
  refl,
  refl,
  refl,
  refl,
)
report s (Next.awaiting q) ((r, t, c), asked, required, request) = (
  execution_with s (some q) ReviewExecutionStatus.awaiting_input none,
  ground arith,
  refl,
  refl,
  refl,
  refl,
  refl,
)
report s Next.end (inl (c, r, required, at_time, rejected)) = (
  execution_with s none ReviewExecutionStatus.cancelled none,
  ground arith,
  refl,
  refl,
  ground arith,
  refl,
  refl,
)
report s Next.end (inr (c, (r, is_r), (t, is_t), confirmed)) = (
  execution_with s none ReviewExecutionStatus.completed (some (review_result s r t)),
  ground arith,
  refl,
  refl,
  ground arith,
  refl,
  (r, t, is_r, refl),
)

-- Whatever the model answers and however often the analyst is asked, every checkpoint of an
-- execution is consistent: the tenant, the case and the other keys of the request stay; the review
-- waits for an answer only when one is required, with the request made from its findings; it ends
-- either cancelled, by an analyst who rejected the evidence and without a recommendation, or with a
-- recommendation and a completion time, and then an analyst has confirmed the evidence wherever
-- that is required. Its report never fails, and has the status that belongs to what is to run next,
-- the request while it waits, and the result exactly when it is completed.
pub execution-IsConsistent :
    (u : UuidLibrary) (backend : ModelBackend) (parsers : Parsers) (case : SupplierCase) (i : Uuid)
    (required : Bool) (started_at : DateTime) (c : Checkpoint)
    → Reaches u backend parsers (initial_state backend.name case i required started_at) c
    → Inv (origin (initial_state backend.name case i required started_at)) c × IsReport c
unfolding initial_state
execution-IsConsistent u backend parsers case i required started_at c r =
    let kept =
      Reaches-Inv u backend parsers (initial_state backend.name case i required started_at) c
        ((refl, refl, refl), refl, refl) r in
    (kept, report c.values c.next kept.1)
