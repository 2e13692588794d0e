-- ===== src/Graphs/Answers.antt =====
-- What a checkpoint keeps of the analyst's answer.
use multi_agent_system.Base.{none, some, ◌≡◌, refl, inl, inr, arith}
use multi_agent_system.Persistence.{UuidLibrary}
use multi_agent_system.Schemas.{EvidenceConfirmation}
use multi_agent_system.Graphs.State.{ReviewGraphState, with_updates, Next, Checkpoint}
use multi_agent_system.Graphs.Nodes.{ModelBackend, Parsers}
use multi_agent_system.Graphs.Steps.{
  Step, Steps, Resumes, specialists, stops, confirms, pauses, synthesizes, done, step, resumes,
  after_confirmation,
}
use multi_agent_system.Graphs.Invariant.{
  HasReached, goes_on, takes_answer, cancels, proceeds_confirmed, concludes,
}

-- The node behind the interrupt has run with this answer.
abbrev pub HasAnswer : EvidenceConfirmation → ReviewGraphState → Next → Type 0
HasAnswer a s Next.synthesize = s.evidence_confirmation ≡ some a
HasAnswer a s Next.end = s.evidence_confirmation ≡ some a
HasAnswer a s _ = ⊥

module _ (u : UuidLibrary) (backend : ModelBackend) (parsers : Parsers) where
  -- Only an analyst's answer is recorded as one.
  unasked :
      {c c' : Checkpoint}
      → Step u backend parsers c c'
      → c.values.evidence_confirmation ≡ none
      → c'.values.evidence_confirmation ≡ none
  unfolding with_updates after_confirmation
  unasked (specialists {s = s} v v' v'' {merged = m} _ _ _ _) h = h
  unasked (stops {s = s} v v' v'' {merged = m} _ _ _ _ _) h = h
  unasked (confirms {s = s} v {updates = updates} k) h =
      let (free, nothing) = goes_on s v updates k in ground arith
  unasked (pauses v k) h = h
  unasked (synthesizes {s = s} v {updates = updates} k) h =
      let (r, t, what) = concludes u backend parsers s v updates k in ground arith

  pub Steps-unasked :
      {c c' : Checkpoint}
      → Steps u backend parsers c c'
      → c.values.evidence_confirmation ≡ none
      → c'.values.evidence_confirmation ≡ none
  Steps-unasked done h = h
  Steps-unasked (step s rest) h = Steps-unasked rest (unasked s h)

  keeps_answer :
      {c c' : Checkpoint} (a : EvidenceConfirmation)
      → Step u backend parsers c c'
      → HasAnswer a c.values c.next
      → HasAnswer a c'.values c'.next
  unfolding with_updates
  keeps_answer a (specialists v v' v'' _ _ _ _) h = elim h [ ]
  keeps_answer a (stops v v' v'' _ _ _ _ _) h = elim h [ ]
  keeps_answer a (confirms v _) h = elim h [ ]
  keeps_answer a (pauses v _) h = elim h [ ]
  keeps_answer a (synthesizes {s = s} v {updates = updates} k) h =
      let (r, t, what) = concludes u backend parsers s v updates k in rw what h

  pub Steps-HasAnswer :
      {c c' : Checkpoint} (a : EvidenceConfirmation)
      → Steps u backend parsers c c'
      → HasAnswer a c.values c.next
      → HasAnswer a c'.values c'.next
  Steps-HasAnswer a done h = h
  Steps-HasAnswer a (step s rest) h = Steps-HasAnswer a rest (keeps_answer a s h)

  pub Resumes-HasAnswer :
      {c c' : Checkpoint} (a : EvidenceConfirmation)
      → Resumes u backend parsers a c c'
      → HasReached c.values c.next
      → HasAnswer a c'.values c'.next
  Resumes-HasAnswer a (resumes {s = s} v {updates = updates} h) (opened, asked, required, request) =
      elim (takes_answer s a v updates required h) [
        | inl (rejected, (t, what)) ↦ rw (what, cancels s a t) refl
        | inr (fine, what) ↦ rw (what, proceeds_confirmed s a) refl
      ]
