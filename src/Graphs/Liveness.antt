-- ===== src/Graphs/Liveness.antt =====
-- A review ends: `run`, and `start` with `resume`, over LangGraph.
use mathlib.Core.Path.{subst}
use multi_agent_system.Base.{none, some, Bool, true, false, ◌≡◌, refl, ap, ◌∙◌, arith, Uuid, nat_eq}
use multi_agent_system.Exec.{ok}
use multi_agent_system.Persistence.{World, UuidLibrary, uuid4, now_utc}
use multi_agent_system.Schemas.{
  SupplierCase, ReviewExecution, ReviewExecutionStatus, ReviewInterrupt, ReviewResult,
  EvidenceConfirmation,
}
use multi_agent_system.Graphs.State.{ReviewGraphState, Next}
use multi_agent_system.Graphs.Nodes.{ModelBackend, Parsers}
use multi_agent_system.Graphs.Engine.{Engine, Input, kept, IsDurable}
use multi_agent_system.Graphs.Workflow.{
  initial_state, review_result, validate_scope, get_execution, invoke, start_or_return, start,
  result_of, run, resume_from, resume,
}
use multi_agent_system.Graphs.Invariant.{HasReached, origin}
use multi_agent_system.Graphs.Answers.{HasAnswer}
use multi_agent_system.Graphs.Consistent.{status_at, report}
use multi_agent_system.Graphs.Ends.{
  completed_result, ends_completed, ends_awaiting, ends_answered, answered_status, in_scope,
}
use multi_agent_system.Graphs.Completes.{Answers, HasEnded, runs_fresh, runs_again}

module _ (u : UuidLibrary) (backend : ModelBackend) (parsers : Parsers) (engine : Engine)
    (durable : IsDurable u backend parsers engine) (answers : Answers u backend parsers) where
  abbrev values_at : SupplierCase → Uuid → Bool → World → ReviewGraphState
  values_at c i required w =
      initial_state backend.name c i required (w.host.clock w.host.clock_reads)

  started :
      (c : SupplierCase) (i : Uuid) (required : Bool) (w : World)
      → kept i w ≡ none
      → HasEnded u backend parsers
          (λ c'. c'.values.evidence_confirmation ≡ none)
          (origin (values_at c i required w))
          i
          (start backend.name engine c i required w).0
          (start backend.name engine c i required w).1
  unfolding start start_or_return initial_state
  started c i required w unknown =
      let v : World = (now_utc w).1 in
      let same : start backend.name engine c i required w
          ≡ invoke backend.name engine (Input.fresh (values_at c i required w)) i v =
        ground arith in
      rw same (
        runs_fresh u backend parsers engine durable answers (values_at c i required w) i v unknown
          ((refl, refl, refl), refl, refl))

  resumed :
      (c : SupplierCase) (i : Uuid) (w t : World) (s : ReviewGraphState) (q : ReviewInterrupt)
      (a : EvidenceConfirmation)
      → kept i t ≡ some (record { values = s; next = Next.awaiting q })
      → HasReached s (Next.awaiting q)
      → origin s ≡ origin (values_at c i true w)
      → HasEnded u backend parsers
          (λ c'. HasAnswer a c'.values c'.next)
          (origin s)
          i
          (resume backend.name engine c i a t).0
          (resume backend.name engine c i a t).1
  unfolding resume resume_from get_execution validate_scope
  resumed c i w t s q a there waits same =
      let scope = in_scope backend.name c i true (w.host.clock w.host.clock_reads) s same in
      let p = report s (Next.awaiting q) waits in
      let reported = p.1 in
      let status = p.4 in
      let goes : resume backend.name engine c i a t
          ≡ invoke backend.name engine (Input.resume a) i t =
        ground arith in
      rw goes (runs_again u backend parsers engine durable answers a s q i t there waits)

  run_ends :
      (c : SupplierCase) (w : World)
      → kept (w.host.random_uuids w.host.uuids_drawn) w ≡ none
      → (r : ReviewResult) × ((run backend.name engine c w).0 ≡ ok r)
        × (r.review_id ≡ w.host.random_uuids w.host.uuids_drawn)
        × (r.case_id ≡ c.id)
  unfolding run result_of initial_state review_result
  run_ends c w new =
      let i = w.host.random_uuids w.host.uuids_drawn in
      let v : World = (uuid4 w).1 in
      let (c', there, rest, (same, reached), unasked, (p, ran)) = started c i false v new in
      let status =
        ends_completed c'.values c'.next reached rest
          (ap (λ o. o.require_evidence_confirmation) same) in
      let (r, t, recommended, result) =
        completed_result c'.values p.0.status p.0.result p.6 (p.4 ∙ status) in
      (
        review_result c'.values r t,
        ground arith,
        ap (λ o. o.execution_id) same,
        ap (λ o. o.case_id) same,
      )

  start_waits :
      (c : SupplierCase) (i : Uuid) (w : World)
      → kept i w ≡ none
      → (s : ReviewGraphState) × (q : ReviewInterrupt) × (e : ReviewExecution) × ((start
            backend.name engine c i true w).0
          ≡ ok e)
        × (e.status ≡ ReviewExecutionStatus.awaiting_input)
        × (kept i (start backend.name engine c i true w).1
            ≡ some (record { values = s; next = Next.awaiting q }))
        × HasReached s (Next.awaiting q)
        × (origin s ≡ origin (values_at c i true w))
  unfolding initial_state
  start_waits c i w new =
      let (c', there, rest, (same, reached), unasked, (p, ran)) = started c i true w new in
      let required : c'.values.require_evidence_confirmation ≡ true =
        ap (λ o. o.require_evidence_confirmation) same in
      let (q, waits) = ends_awaiting c'.values c'.next reached rest required unasked in
      (
        c'.values,
        q,
        p.0,
        ran,
        p.4 ∙ ap (status_at c'.values) waits,
        there ∙ ap (λ n. some (record { values = c'.values; next = n })) waits,
        subst (λ n. HasReached c'.values n) waits reached,
        same,
      )

  -- A review ends whenever the model answers each request with a text that fits its schema: `run`
  -- returns a result of the case under the identifier that was drawn for it; an execution that
  -- requires a confirmation waits for it once `start` returns, and `resume` then completes it, or
  -- cancels it if the analyst rejects the evidence. The identifiers are new, and LangGraph behaves
  -- as documented.
  pub review-IsLive :
      (c : SupplierCase) (i : Uuid) (a : EvidenceConfirmation) (w : World)
      → kept (w.host.random_uuids w.host.uuids_drawn) w ≡ none
      → kept i w ≡ none
      → ((r : ReviewResult) × ((run backend.name engine c w).0 ≡ ok r)
          × (r.review_id ≡ w.host.random_uuids w.host.uuids_drawn)
          × (r.case_id ≡ c.id))
        × ((e : ReviewExecution) × ((start backend.name engine c i true w).0 ≡ ok e)
            × (e.status ≡ ReviewExecutionStatus.awaiting_input))
        × ((e : ReviewExecution) × ((resume backend.name engine c i a
                (start backend.name engine c i true w).1).0
              ≡ ok e)
            × (e.status ≡ answered_status a))
  unfolding initial_state
  review-IsLive c i a w new unknown =
      let (s, q, e, ran, status, there, waits, same) = start_waits c i w unknown in
      let t = (start backend.name engine c i true w).1 in
      let (c', there', rest, (same', reached), given, (p, ran')) =
        resumed c i w t s q a there waits same in
      let required : c'.values.require_evidence_confirmation ≡ true =
        ap (λ o. o.require_evidence_confirmation) (same' ∙ same) in
      (
        run_ends c w new,
        (e, ran, status),
        (p.0, ran', p.4 ∙ ends_answered a c'.values c'.next reached given rest required),
      )
