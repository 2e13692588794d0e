-- ===== src/Graphs/Engine.antt =====
-- LangGraph as packages/graphs/supplier_review.py uses it: `ainvoke` of the compiled graph, with a
-- checkpointer that does not fail. What the program relies on is the documented behaviour
-- `IsDurable`.
use multi_agent_system.Base.{List, Option, none, some, true, ◌≡◌, ◌≢◌, ◌⊎◌, Uuid, nat_eq}
use multi_agent_system.Base.Dict
use multi_agent_system.Exec.{Exec, Error, Result, ok, err}
use multi_agent_system.Persistence.{World, UuidLibrary}
use multi_agent_system.Schemas.{Finding, EvidenceConfirmation, ReviewInterrupt}
use multi_agent_system.Graphs.State.{ReviewGraphState, Updates, with_updates, Next, Checkpoint}
use multi_agent_system.Graphs.Nodes.{
  ModelBackend, Parsers, confirm_evidence, security_review, legal_review, financial_review,
  synthesize,
}
use multi_agent_system.Graphs.Steps.{Steps, Resumes, is_at_rest}

-- The values of a new execution, or `Command(resume=...)`.
pub data Input : Type 0 where
  fresh : ReviewGraphState → Input
  resume : EvidenceConfirmation → Input

pub record Engine : Type 0 where
  pub ainvoke : Input → Uuid → Exec World (Unit {0})

-- The latest checkpoint of a thread.
abbrev pub kept : Uuid → World → Option Checkpoint
kept i w = Dict.get w.checkpoints i

module _ (u : UuidLibrary) (backend : ModelBackend) (parsers : Parsers) where
  -- A node that is next raised the exception; a node that is interrupted ran with this answer, and
  -- a node behind START ran on the values without the findings that others have added since.
  pub data Raises : Option EvidenceConfirmation → ReviewGraphState → Next → Error → Type 0 where
    security :
        {a : Option EvidenceConfirmation} {t : ReviewGraphState} {e : Error} (s : ReviewGraphState)
        (merged : List Finding) (v : World)
        → (security_review u backend parsers s v).0 ≡ err e
        → t ≡ with_updates s (Updates.new_findings merged)
        → Raises a t Next.unfinished e
    legal :
        {a : Option EvidenceConfirmation} {t : ReviewGraphState} {e : Error} (s : ReviewGraphState)
        (merged : List Finding) (v : World)
        → (legal_review u backend parsers s v).0 ≡ err e
        → t ≡ with_updates s (Updates.new_findings merged)
        → Raises a t Next.unfinished e
    financial :
        {a : Option EvidenceConfirmation} {t : ReviewGraphState} {e : Error} (s : ReviewGraphState)
        (merged : List Finding) (v : World)
        → (financial_review u backend parsers s v).0 ≡ err e
        → t ≡ with_updates s (Updates.new_findings merged)
        → Raises a t Next.unfinished e
    evidence :
        {a : Option EvidenceConfirmation} {s : ReviewGraphState} {e : Error} (v : World)
        → (confirm_evidence s none v).0 ≡ err e
        → Raises a s Next.evidence_confirmation e
    answer :
        {a : EvidenceConfirmation} {s : ReviewGraphState} {e : Error} {r : ReviewInterrupt}
        (v : World)
        → (confirm_evidence s (some a) v).0 ≡ err e
        → Raises (some a) s (Next.awaiting r) e
    synthesis :
        {a : Option EvidenceConfirmation} {s : ReviewGraphState} {e : Error} (v : World)
        → (synthesize u backend parsers s v).0 ≡ err e
        → Raises a s Next.synthesize e

  -- How `ainvoke` ends: it returns when nothing is left to run, and it raises what a node raised.
  abbrev pub Ends : Option EvidenceConfirmation → Result (Unit {0}) → Checkpoint → Type 0
  Ends a r c =
      ((r ≡ ok tt) × (is_at_rest c.next ≡ true))
      ⊎ ((e : Error) × (r ≡ err e) × Raises a c.values c.next e)

  pub record IsDurable (engine : Engine) : Type 0 where
    pub on_fresh :
        (s : ReviewGraphState) (i : Uuid) (w : World)
        → kept i w ≡ none
        → (c : Checkpoint) × (kept i (engine.ainvoke (fresh s) i w).1 ≡ some c)
          × Steps u backend parsers (record { values = s; next = Next.specialists }) c
          × Ends none (engine.ainvoke (fresh s) i w).0 c
    pub on_resume :
        (a : EvidenceConfirmation) (s : ReviewGraphState) (r : ReviewInterrupt) (i : Uuid)
        (w : World)
        → kept i w ≡ some (record { values = s; next = Next.awaiting r })
        → (c : Checkpoint) × (kept i (engine.ainvoke (resume a) i w).1 ≡ some c)
          × Ends (some a) (engine.ainvoke (resume a) i w).0 c
          × ((c ≡ record { values = s; next = Next.awaiting r })
                × ((engine.ainvoke (resume a) i w).0 ≢ ok tt)
              ⊎ ((c' : Checkpoint) × Resumes u backend parsers a
                    (record { values = s; next = Next.awaiting r })
                    c'
                  × Steps u backend parsers c' c))
    pub on_others :
        (input : Input) (i j : Uuid) (w : World)
        → j ≢ i
        → kept j (engine.ainvoke input i w).1 ≡ kept j w
