-- ===== src/Graphs/Completes.antt =====
-- A review whose model answers runs to its end.
use multi_agent_system.Base.{
  Option, none, some, true, ◌≡◌, refl, inl, inr, arith, Uuid, nat_eq, Bool-cases, List,
}
use multi_agent_system.Exec.{Error, Result, ok}
use multi_agent_system.Persistence.{World, UuidLibrary}
use multi_agent_system.Schemas.{
  ReviewExecution, ReviewInterrupt, Finding, EvidenceConfirmation, ModelTask,
}
use multi_agent_system.Graphs.State.{ReviewGraphState, Updates, Next, Checkpoint}
use multi_agent_system.Graphs.Nodes.{
  ModelBackend, Parsers, confirm_evidence, answered, is_reject, run_specialist, security_review,
  legal_review, financial_review, synthesize,
}
use multi_agent_system.Graphs.Steps.{is_at_rest}
use multi_agent_system.Graphs.Engine.{
  Engine, Input, kept, Raises, Ends, IsDurable, security, legal, financial, evidence, answer,
  synthesis,
}
use multi_agent_system.Graphs.Workflow.{invoke}
use multi_agent_system.Graphs.Invariant.{HasReached, Inv, Origin, origin, Steps-Inv, Resumes-Inv}
use multi_agent_system.Graphs.Answers.{HasAnswer, Steps-unasked, Steps-HasAnswer, Resumes-HasAnswer}
use multi_agent_system.Graphs.Consistent.{IsReport, report}

module _ (u : UuidLibrary) (backend : ModelBackend) (parsers : Parsers) where
  -- Each request to the model is answered with a text that fits the schema.
  pub record Answers : Type 0 where
    pub on_review :
        (s : ReviewGraphState) (task : ModelTask) (v : World)
        → (fs : List Finding) × ((run_specialist u backend parsers s task v).0 ≡ ok fs)
    pub on_synthesis :
        (s : ReviewGraphState) (v : World)
        → (updates : Updates) × ((synthesize u backend parsers s v).0 ≡ ok updates)

  never_raises :
      (a : Option EvidenceConfirmation) (s : ReviewGraphState) (n : Next) (e : Error)
      → Answers
      → Raises u backend parsers a s n e
      → ⊥
  unfolding security_review legal_review financial_review confirm_evidence answered
  never_raises a _ _ e answers (security s merged v h same) =
      let (fs, said) = answers.on_review s ModelTask.security_review v in ground arith
  never_raises a _ _ e answers (legal s merged v h same) =
      let (fs, said) = answers.on_review s ModelTask.legal_review v in ground arith
  never_raises a _ _ e answers (financial s merged v h same) =
      let (fs, said) = answers.on_review s ModelTask.financial_review v in ground arith
  never_raises a s _ e answers (evidence v h) = elim (Bool-cases s.require_evidence_confirmation) [
    | inl k ↦ ground arith
    | inr k ↦ ground arith
  ]
  never_raises _ s _ e answers (answer {a = a} v h) =
      elim (Bool-cases s.require_evidence_confirmation) [
        | inr k ↦ ground arith
        | inl k ↦ elim (Bool-cases (is_reject a.decision)) [
          | inl k' ↦ ground arith
          | inr k' ↦ ground arith
        ]
      ]
  never_raises a s _ e answers (synthesis v h) =
      let (updates, said) = answers.on_synthesis s v in ground arith

  rests :
      (a : Option EvidenceConfirmation) (r : Result (Unit {0})) (c : Checkpoint)
      → Answers
      → Ends u backend parsers a r c
      → (r ≡ ok tt) × (is_at_rest c.next ≡ true)
  rests a r c answers (inl there) = there
  rests a r c answers (inr (e, failed, raises)) =
      absurd (never_raises a c.values c.next e answers raises)

  -- What a call of LangGraph has led to: a consistent checkpoint with nothing left to run, and its
  -- report as the answer.
  abbrev pub HasEnded :
      (Checkpoint → Type 0) → Origin → Uuid → Result ReviewExecution → World → Type 0
  HasEnded Q o i r t =
      (c : Checkpoint) × (kept i t ≡ some c)
      × (is_at_rest c.next ≡ true)
      × Inv o c
      × Q c
      × ((p : IsReport c) × (r ≡ ok p.0))

  module _ (engine : Engine) (durable : IsDurable u backend parsers engine)
      (answers : Answers) where
    pub runs_fresh :
        (s : ReviewGraphState) (i : Uuid) (w : World)
        → kept i w ≡ none
        → HasReached s Next.specialists
        → HasEnded
            (λ c. c.values.evidence_confirmation ≡ none)
            (origin s)
            i
            (invoke backend.name engine (Input.fresh s) i w).0
            (invoke backend.name engine (Input.fresh s) i w).1
    unfolding invoke
    runs_fresh s i w unknown begun =
        let (c, there, path, ends) = durable.on_fresh s i w unknown in
        let (returned, rest) = rests none _ c answers ends in
        let (same, reached) = Steps-Inv u backend parsers path (refl, begun) in
        let p = report c.values c.next reached in
        let reported = p.1 in
        let asked = Steps-unasked u backend parsers path begun.1 in
        (c, ground arith, rest, (same, reached), asked, (p, ground arith))

    pub runs_again :
        (a : EvidenceConfirmation) (s : ReviewGraphState) (q : ReviewInterrupt) (i : Uuid)
        (w : World)
        → kept i w ≡ some (record { values = s; next = Next.awaiting q })
        → HasReached s (Next.awaiting q)
        → HasEnded
            (λ c. HasAnswer a c.values c.next)
            (origin s)
            i
            (invoke backend.name engine (Input.resume a) i w).0
            (invoke backend.name engine (Input.resume a) i w).1
    unfolding invoke
    runs_again a s q i w there waits =
        let (c, there', ends, went) = durable.on_resume a s q i w there in
        let (returned, rest) = rests (some a) _ c answers ends in
        elim went [
          | inl (stayed, stuck) ↦ absurd (stuck returned)
          | inr (c', answered_, path) ↦
              let (same, reached) =
                Steps-Inv u backend parsers path
                  (Resumes-Inv u backend parsers a answered_ (refl, waits)) in
              let p = report c.values c.next reached in
              let reported = p.1 in
              let given =
                Steps-HasAnswer u backend parsers a path
                  (Resumes-HasAnswer u backend parsers a answered_ waits) in
              (c, ground arith, rest, (same, reached), given, (p, ground arith))
        ]
