-- ===== src/Graphs/Steps.antt =====
-- packages/graphs/supplier_review.py: the edges of `_build_graph`, as steps between checkpoints.
use mathlib.Core.List.{Permᴰ}
use multi_agent_system.Base.{List, [], ◌++◌, none, some, Bool, true, false, ◌≡◌, ◌⊎◌, nat_eq}
use multi_agent_system.Exec.{Result, Error, ok, err}
use multi_agent_system.Persistence.{World, UuidLibrary}
use multi_agent_system.Schemas.{Finding, ReviewInterrupt, EvidenceConfirmation}
use multi_agent_system.Graphs.State.{ReviewGraphState, Updates, with_updates, Next, Checkpoint}
use multi_agent_system.Graphs.Nodes.{
  ModelBackend, Parsers, NodeResult, confirm_evidence, Branch, after_evidence_confirmation,
  security_review, legal_review, financial_review, synthesize,
}

abbrev at : ReviewGraphState → Next → Checkpoint
at s n = record { values = s; next = n }

-- The conditional edges of `evidence_confirmation`.
unfoldable pub branch_target : Branch → Next
branch_target Branch.to_synthesize = Next.synthesize
branch_target Branch.to_cancel = Next.end

-- The checkpoint behind `evidence_confirmation`.
unfoldable pub after_confirmation : ReviewGraphState → Updates → Checkpoint
unfolding with_updates branch_target after_evidence_confirmation
after_confirmation s updates =
    let t = with_updates s updates in at t (branch_target (after_evidence_confirmation t))

-- A node behind START has returned these findings, or it has raised or been cancelled, and there
-- are none of it.
abbrev pub Adds : Result Updates → List Finding → Type 0
Adds r fs = (r ≡ ok (Updates.new_findings fs)) ⊎ (fs ≡ [])

module _ (u : UuidLibrary) (backend : ModelBackend) (parsers : Parsers) where
  -- A super-step. The nodes behind START run at the same time, on the same values, in any states of
  -- the world; their findings are added in some order. When one of them
  -- raises, the others are cancelled; the findings of those that had returned are kept as pending
  -- writes of the thread, and `aget_state` shows them.
  pub data Step : Checkpoint → Checkpoint → Type 0 where
    specialists :
        {s : ReviewGraphState} (v v' v'' : World) {fs gs hs merged : List Finding}
        → (security_review u backend parsers s v).0 ≡ ok (Updates.new_findings fs)
        → (legal_review u backend parsers s v').0 ≡ ok (Updates.new_findings gs)
        → (financial_review u backend parsers s v'').0 ≡ ok (Updates.new_findings hs)
        → Permᴰ merged (fs ++ (gs ++ hs))
        → Step
            (at s Next.specialists)
            (at (with_updates s (Updates.new_findings merged)) Next.evidence_confirmation)
    stops :
        {s : ReviewGraphState} (v v' v'' : World) {e : Error} {fs gs hs merged : List Finding}
        → ((security_review u backend parsers s v).0 ≡ err e)
          ⊎ ((legal_review u backend parsers s v').0 ≡ err e)
          ⊎ ((financial_review u backend parsers s v'').0 ≡ err e)
        → Adds (security_review u backend parsers s v).0 fs
        → Adds (legal_review u backend parsers s v').0 gs
        → Adds (financial_review u backend parsers s v'').0 hs
        → Permᴰ merged (fs ++ (gs ++ hs))
        → Step
            (at s Next.specialists)
            (at (with_updates s (Updates.new_findings merged)) Next.unfinished)
    confirms :
        {s : ReviewGraphState} (v : World) {updates : Updates}
        → (confirm_evidence s none v).0 ≡ ok (NodeResult.returns updates)
        → Step (at s Next.evidence_confirmation) (after_confirmation s updates)
    pauses :
        {s : ReviewGraphState} (v : World) {r : ReviewInterrupt}
        → (confirm_evidence s none v).0 ≡ ok (NodeResult.interrupts r)
        → Step (at s Next.evidence_confirmation) (at s (Next.awaiting r))
    synthesizes :
        {s : ReviewGraphState} (v : World) {updates : Updates}
        → (synthesize u backend parsers s v).0 ≡ ok updates
        → Step (at s Next.synthesize) (at (with_updates s updates) Next.end)

  pub data Steps : Checkpoint → Checkpoint → Type 0 where
    done : {c : Checkpoint} → Steps c c
    step : {c c' c'' : Checkpoint} → Step c c' → Steps c' c'' → Steps c c''

  -- `Command(resume=answer)`: the interrupted node runs again.
  pub data Resumes (answer : EvidenceConfirmation) : Checkpoint → Checkpoint → Type 0 where
    resumes :
        {s : ReviewGraphState} (v : World) {r : ReviewInterrupt} {updates : Updates}
        → (confirm_evidence s (some answer) v).0 ≡ ok (NodeResult.returns updates)
        → Resumes answer (at s (Next.awaiting r)) (after_confirmation s updates)

  -- Every checkpoint of an execution that starts with these values, however often it is resumed.
  pub data Reaches (s : ReviewGraphState) : Checkpoint → Type 0 where
    starts : Reaches s (at s Next.specialists)
    steps : {c c' : Checkpoint} → Reaches s c → Step c c' → Reaches s c'
    resumed :
        {c c' : Checkpoint} (answer : EvidenceConfirmation)
        → Reaches s c
        → Resumes answer c c'
        → Reaches s c'

-- Nothing can run without another call.
abbrev pub is_at_rest : Next → Bool
is_at_rest Next.end = true
is_at_rest (Next.awaiting r) = true
is_at_rest _ = false
