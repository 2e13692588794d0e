-- ===== src/Graphs/Invariant.antt =====
-- What holds of every checkpoint of an execution, whatever the model answers.
use multi_agent_system.Base.{
  String, [], none, some, Bool, true, false, ◌≡◌, refl, ◌⊎◌, inl, inr, arith, Bool-cases, Uuid,
  DateTime,
}
use multi_agent_system.Exec.{Result-cases, ok}
use multi_agent_system.Persistence.{World, UuidLibrary}
use multi_agent_system.Schemas.{SupplierCase, Recommendation, EvidenceConfirmation, ReviewInterrupt}
use multi_agent_system.Graphs.State.{ReviewGraphState, Updates, with_updates, Next, Checkpoint}
use multi_agent_system.Graphs.Nodes.{
  ModelBackend, Parsers, NodeResult, confirm_evidence, answered, after_evidence_confirmation,
  interrupt_request, synthesis_request, synthesize, is_reject,
}
use multi_agent_system.Graphs.Steps.{
  Step, Steps, Resumes, Reaches, specialists, stops, confirms, pauses, synthesizes, done, step,
  resumes, starts, steps, resumed, branch_target, after_confirmation,
}

-- The keys that no node writes.
pub record Origin : Type 0 where
  pub tenant_id : String
  pub case_id : Uuid
  pub execution_id : Uuid
  pub supplier_case : SupplierCase
  pub model_backend : String
  pub started_at : DateTime
  pub require_evidence_confirmation : Bool

abbrev pub origin : ReviewGraphState → Origin
origin s = record {
  tenant_id = s.tenant_id;
  case_id = s.case_id;
  execution_id = s.execution_id;
  supplier_case = s.supplier_case;
  model_backend = s.model_backend;
  started_at = s.started_at;
  require_evidence_confirmation = s.require_evidence_confirmation;
}

-- The analyst confirmed the evidence, or was not to be asked.
abbrev pub IsConfirmed : ReviewGraphState → Type 0
IsConfirmed s =
    (s.require_evidence_confirmation ≡ false)
    ⊎ ((e : EvidenceConfirmation) × (s.evidence_confirmation ≡ some e)
        × (is_reject e.decision ≡ false))

abbrev pub IsOpen : ReviewGraphState → Type 0
IsOpen s = (s.recommendation ≡ none) × (s.completed_at ≡ none) × (s.cancelled ≡ false)

abbrev pub IsCancelled : ReviewGraphState → Type 0
IsCancelled s =
    (s.cancelled ≡ true)
    × (s.recommendation ≡ none)
    × (s.require_evidence_confirmation ≡ true)
    × ((t : DateTime) × (s.completed_at ≡ some t))
    × ((e : EvidenceConfirmation) × (s.evidence_confirmation ≡ some e)
        × (is_reject e.decision ≡ true))

abbrev pub IsCompleted : ReviewGraphState → Type 0
IsCompleted s =
    (s.cancelled ≡ false)
    × ((r : Recommendation) × (s.recommendation ≡ some r))
    × ((t : DateTime) × (s.completed_at ≡ some t))
    × IsConfirmed s

-- By what is to run next.
abbrev pub HasReached : ReviewGraphState → Next → Type 0
HasReached s Next.specialists = IsOpen s × (s.evidence_confirmation ≡ none) × (s.findings ≡ [])
HasReached s Next.unfinished = IsOpen s × (s.evidence_confirmation ≡ none)
HasReached s Next.evidence_confirmation = IsOpen s × (s.evidence_confirmation ≡ none)
HasReached s (Next.awaiting r) =
    IsOpen s
    × (s.evidence_confirmation ≡ none)
    × (s.require_evidence_confirmation ≡ true)
    × (r ≡ interrupt_request s)
HasReached s Next.synthesize = IsOpen s × IsConfirmed s
HasReached s Next.end = IsCancelled s ⊎ IsCompleted s

abbrev pub Inv : Origin → Checkpoint → Type 0
Inv o c = (origin c.values ≡ o) × HasReached c.values c.next

-- Without an answer the node goes on or asks, by the flag.
asks :
    (s : ReviewGraphState) (v : World) (r : ReviewInterrupt)
    → (confirm_evidence s none v).0 ≡ ok (NodeResult.interrupts r)
    → (s.require_evidence_confirmation ≡ true) × (r ≡ interrupt_request s)
unfolding confirm_evidence
asks s v r h = elim (Bool-cases s.require_evidence_confirmation) [
  | inl required ↦ (required, ground arith)
  | inr free ↦ absurd (ground arith)
]

pub goes_on :
    (s : ReviewGraphState) (v : World) (updates : Updates)
    → (confirm_evidence s none v).0 ≡ ok (NodeResult.returns updates)
    → (s.require_evidence_confirmation ≡ false) × (updates ≡ Updates.nothing)
unfolding confirm_evidence
goes_on s v updates h = elim (Bool-cases s.require_evidence_confirmation) [
  | inl required ↦ absurd (ground arith)
  | inr free ↦ (free, ground arith)
]

-- What an answer leads to.
abbrev Answered : EvidenceConfirmation → Updates → Type 0
Answered answer updates =
    ((is_reject answer.decision ≡ true)
      × ((t : DateTime) × (updates ≡ Updates.confirmation answer true (some t))))
    ⊎ ((is_reject answer.decision ≡ false) × (updates ≡ Updates.confirmation answer false none))

pub takes_answer :
    (s : ReviewGraphState) (answer : EvidenceConfirmation) (v : World) (updates : Updates)
    → s.require_evidence_confirmation ≡ true
    → (confirm_evidence s (some answer) v).0 ≡ ok (NodeResult.returns updates)
    → Answered answer updates
unfolding confirm_evidence answered
takes_answer s answer v updates required h = elim (Bool-cases (is_reject answer.decision)) [
  | inl rejected ↦ inl (rejected, (v.host.clock v.host.clock_reads, ground arith))
  | inr fine ↦ inr (fine, ground arith)
]

-- The conditional edge.
proceeds :
    (s : ReviewGraphState)
    → s.cancelled ≡ false
    → after_confirmation s Updates.nothing ≡ record { values = s; next = Next.synthesize }
unfolding after_confirmation with_updates after_evidence_confirmation branch_target
proceeds s h = ground arith

pub proceeds_confirmed :
    (s : ReviewGraphState) (answer : EvidenceConfirmation)
    → after_confirmation s (Updates.confirmation answer false none) ≡ record {
      values = record s {
        evidence_confirmation = some answer;
        cancelled = false;
        completed_at = none;
      };
      next = Next.synthesize;
    }
unfolding after_confirmation with_updates after_evidence_confirmation branch_target
proceeds_confirmed s answer = refl

pub cancels :
    (s : ReviewGraphState) (answer : EvidenceConfirmation) (t : DateTime)
    → after_confirmation s (Updates.confirmation answer true (some t)) ≡ record {
      values = record s {
        evidence_confirmation = some answer;
        cancelled = true;
        completed_at = some t;
      };
      next = Next.end;
    }
unfolding after_confirmation with_updates after_evidence_confirmation branch_target
cancels s answer t = refl

module _ (u : UuidLibrary) (backend : ModelBackend) (parsers : Parsers) where
  pub concludes :
      (s : ReviewGraphState) (v : World) (updates : Updates)
      → (synthesize u backend parsers s v).0 ≡ ok updates
      → (r : Recommendation) × (t : DateTime) × (updates ≡ Updates.conclusion r t)
  unfolding synthesize
  concludes s v updates h =
      let answer = backend.generate (synthesis_request s) v in
      elim (Result-cases answer.0) [
        | inr (e, failed) ↦ absurd (ground arith)
        | inl (raw, said) ↦ elim (Result-cases (parsers.recommendation raw)) [
          | inr (e, invalid) ↦ absurd (ground arith)
          | inl (r, valid) ↦ (r, answer.1.host.clock answer.1.host.clock_reads, ground arith)
        ]
      ]

  Step-Inv : {o : Origin} {c c' : Checkpoint} → Step u backend parsers c c' → Inv o c → Inv o c'
  unfolding with_updates
  Step-Inv (specialists {s = s} v v' v'' {merged = m} a b d _) (same, (opened, asked, empty)) =
      (same, (opened, asked))
  Step-Inv (stops {s = s} v v' v'' {merged = m} raised a b d _) (same, (opened, asked, empty)) =
      (same, (opened, asked))
  Step-Inv (confirms {s = s} v {updates = updates} h) (same, (opened, asked)) =
      let (free, nothing) = goes_on s v updates h in
      rw (nothing, proceeds s opened.2) (same, (opened, inl free))
  Step-Inv (pauses {s = s} v {r = r} h) (same, (opened, asked)) =
      let (required, request) = asks s v r h in (same, (opened, asked, required, request))
  Step-Inv (synthesizes {s = s} v {updates = updates} h) (same, (opened, confirmed)) =
      let (r, t, what) = concludes s v updates h in
      rw what (same, inr (opened.2, (r, refl), (t, refl), confirmed))

  pub Resumes-Inv :
      {o : Origin} {c c' : Checkpoint} (answer : EvidenceConfirmation)
      → Resumes u backend parsers answer c c'
      → Inv o c
      → Inv o c'
  Resumes-Inv answer (resumes {s = s} v {updates = updates} h)
        (same, (opened, asked, required, request)) =
      elim (takes_answer s answer v updates required h) [
        | inl (rejected, (t, what)) ↦
            rw (what, cancels s answer t)
              (same, inl (refl, opened.0, required, (t, refl), (answer, refl, rejected)))
        | inr (fine, what) ↦
            rw (what, proceeds_confirmed s answer)
              (same, ((opened.0, refl, refl), inr (answer, refl, fine)))
      ]

  pub Steps-Inv :
      {o : Origin} {c c' : Checkpoint} → Steps u backend parsers c c' → Inv o c → Inv o c'
  Steps-Inv done h = h
  Steps-Inv (step s rest) h = Steps-Inv rest (Step-Inv s h)

  pub Reaches-Inv :
      (s₀ : ReviewGraphState) (c : Checkpoint)
      → HasReached s₀ Next.specialists
      → Reaches u backend parsers s₀ c
      → Inv (origin s₀) c
  Reaches-Inv s₀ _ h starts = (refl, h)
  Reaches-Inv s₀ _ h (steps r s) = Step-Inv s (Reaches-Inv s₀ _ h r)
  Reaches-Inv s₀ _ h (resumed answer r s) = Resumes-Inv answer s (Reaches-Inv s₀ _ h r)
