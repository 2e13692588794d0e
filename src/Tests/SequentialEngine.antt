-- ===== src/Tests/SequentialEngine.antt =====
-- An engine that runs the nodes of the review graph one after the other, all in the state in which
-- it is called: it shows that the documented behaviour of LangGraph can hold.
use mathlib.Core.List.Permᴰ
use multi_agent_system.Base.{
  List, [], ◌++◌, Option, none, some, ◌≡◌, ◌≢◌, refl, ◌⊎◌, inl, inr, arith, Uuid, nat_eq,
  Bool-cases,
}
use multi_agent_system.Base.Dict
use multi_agent_system.Base.Dict.{get-put}
use multi_agent_system.Exec.{Result, ok, err}
use multi_agent_system.Persistence.{World, UuidLibrary}
use multi_agent_system.Schemas.{Finding, EvidenceConfirmation, ReviewInterrupt, ModelTask}
use multi_agent_system.Graphs.State.{ReviewGraphState, Updates, with_updates, Next, Checkpoint}
use multi_agent_system.Graphs.Nodes.{
  ModelBackend, Parsers, NodeResult, confirm_evidence, answered, is_reject, Branch,
  after_evidence_confirmation, run_specialist, security_review, legal_review, financial_review,
  synthesize,
}
use multi_agent_system.Graphs.Steps.{
  Steps, Resumes, specialists, stops, confirms, pauses, synthesizes, done, step, resumes,
  branch_target, after_confirmation,
}
use multi_agent_system.Graphs.Engine.{
  Engine, Input, kept, Ends, IsDurable, security, legal, financial, evidence, answer, synthesis,
}

abbrev at : ReviewGraphState → Next → Checkpoint
at s n = record { values = s; next = n }

abbrev Outcome : Type 0
Outcome = Result (Unit {0}) × Checkpoint

module _ (u : UuidLibrary) (backend : ModelBackend) (parsers : Parsers) where
  abbrev after_synthesis : ReviewGraphState → Result Updates → Outcome
  after_synthesis s (err e) = (err e, at s Next.synthesize)
  after_synthesis s (ok updates) = (ok tt, at (with_updates s updates) Next.end)

  abbrev run_branch : ReviewGraphState → World → Branch → Outcome
  run_branch s w Branch.to_cancel = (ok tt, at s Next.end)
  run_branch s w Branch.to_synthesize = after_synthesis s (synthesize u backend parsers s w).0

  abbrev after_node : ReviewGraphState → Next → World → Result NodeResult → Outcome
  after_node s n w (err e) = (err e, at s n)
  after_node s n w (ok (NodeResult.interrupts r)) = (ok tt, at s (Next.awaiting r))
  after_node s n w (ok (NodeResult.returns updates)) =
      run_branch (with_updates s updates) w (after_evidence_confirmation (with_updates s updates))

  -- Some node behind START has raised.
  abbrev stopped : ReviewGraphState → List Finding → Checkpoint
  stopped s fs = at (with_updates s (Updates.new_findings fs)) Next.unfinished

  abbrev after_specialists :
      ReviewGraphState
      → World
      → Result (List Finding)
      → Result (List Finding)
      → Result (List Finding)
      → Outcome
  after_specialists s w (err e) gs hs = (err e, stopped s [])
  after_specialists s w (ok fs) (err e) hs = (err e, stopped s (fs ++ []))
  after_specialists s w (ok fs) (ok gs) (err e) = (err e, stopped s (fs ++ (gs ++ [])))
  after_specialists s w (ok fs) (ok gs) (ok hs) =
      let t = with_updates s (Updates.new_findings (fs ++ (gs ++ hs))) in
      after_node t Next.evidence_confirmation w (confirm_evidence t none w).0

  abbrev run_fresh : ReviewGraphState → World → Outcome
  run_fresh s w =
      after_specialists s w (run_specialist u backend parsers s ModelTask.security_review w).0
        (run_specialist u backend parsers s ModelTask.legal_review w).0
        (run_specialist u backend parsers s ModelTask.financial_review w).0

  abbrev run_answer :
      EvidenceConfirmation → Uuid → World → Option Checkpoint → Result (Unit {0}) × World
  run_answer a i w none = (ok tt, w)
  run_answer a i w (some c) = elim c.next [
    | Next.awaiting r ↦
        let (result, c') =
          after_node c.values (Next.awaiting r) w (confirm_evidence c.values (some a) w).0 in
        (result, record w { checkpoints = Dict.put w.checkpoints i c' })
    | Next.specialists ↦ (ok tt, w)
    | Next.unfinished ↦ (ok tt, w)
    | Next.evidence_confirmation ↦ (ok tt, w)
    | Next.synthesize ↦ (ok tt, w)
    | Next.end ↦ (ok tt, w)
  ]

  abbrev run_input : Input → Uuid → World → Result (Unit {0}) × World
  run_input (Input.fresh s) i w =
      let (result, c) = run_fresh s w in
      (result, record w { checkpoints = Dict.put w.checkpoints i c })
  run_input (Input.resume a) i w = run_answer a i w (kept i w)

  abbrev pub sequential_engine : Engine
  sequential_engine = record { ainvoke = run_input }

  branch_sound :
      (s : ReviewGraphState) (w : World) (b : Branch) (a : Option EvidenceConfirmation)
      → Steps u backend parsers (at s (branch_target b)) (run_branch s w b).1
        × Ends u backend parsers a (run_branch s w b).0 (run_branch s w b).1
  unfolding branch_target
  branch_sound s w Branch.to_cancel a = (done, inl (refl, refl))
  branch_sound s w Branch.to_synthesize a = by_result _ refl
    where
      by_result :
          (r : Result Updates)
          → (synthesize u backend parsers s w).0 ≡ r
          → Steps u backend parsers (at s Next.synthesize) (after_synthesis s r).1
            × Ends u backend parsers a (after_synthesis s r).0 (after_synthesis s r).1
      by_result (err e) h = (done, inr (e, refl, synthesis w h))
      by_result (ok updates) h = (step (synthesizes w h) done, inl (refl, refl))

  confirmation_sound :
      (s : ReviewGraphState) (w : World)
      → let o = after_node s Next.evidence_confirmation w (confirm_evidence s none w).0 in
        Steps u backend parsers (at s Next.evidence_confirmation) o.1
        × Ends u backend parsers none o.0 o.1
  unfolding after_confirmation
  confirmation_sound s w = by_result _ refl
    where
      by_result :
          (r : Result NodeResult)
          → (confirm_evidence s none w).0 ≡ r
          → Steps u backend parsers
              (at s Next.evidence_confirmation)
              (after_node s Next.evidence_confirmation w r).1
            × Ends u backend parsers none
                (after_node s Next.evidence_confirmation w r).0
                (after_node s Next.evidence_confirmation w r).1
      by_result (err e) h = (done, inr (e, refl, evidence w h))
      by_result (ok (NodeResult.interrupts r)) h = (step (pauses w h) done, inl (refl, refl))
      by_result (ok (NodeResult.returns updates)) h =
          let t = with_updates s updates in
          let (path, ends) = branch_sound t w (after_evidence_confirmation t) none in
          (step (confirms w h) path, ends)

  specialists_sound :
      (s : ReviewGraphState) (w : World)
      → Steps u backend parsers (at s Next.specialists) (run_fresh s w).1
        × Ends u backend parsers none (run_fresh s w).0 (run_fresh s w).1
  unfolding security_review legal_review financial_review
  specialists_sound s w = by_results _ _ _ refl refl refl
    where
      by_results :
          (fs gs hs : Result (List Finding))
          → (run_specialist u backend parsers s ModelTask.security_review w).0 ≡ fs
          → (run_specialist u backend parsers s ModelTask.legal_review w).0 ≡ gs
          → (run_specialist u backend parsers s ModelTask.financial_review w).0 ≡ hs
          → Steps u backend parsers (at s Next.specialists) (after_specialists s w fs gs hs).1
            × Ends u backend parsers none
                (after_specialists s w fs gs hs).0
                (after_specialists s w fs gs hs).1
      by_results (err e) gs hs p q r = (
        step
            (stops w w w {e = e} {fs = []} {gs = []} {hs = []} (inl (ground arith)) (inr refl)
              (inr refl) (inr refl) (Permᴰ.refl []))
            done,
        inr (e, refl, security s [] w (ground arith) refl),
      )
      by_results (ok fs) (err e) hs p q r = (
        step
            (stops w w w {e = e} {fs = fs} {gs = []} {hs = []} (inr (inl (ground arith)))
              (inl (ground arith)) (inr refl) (inr refl) (Permᴰ.refl (fs ++ [])))
            done,
        inr (e, refl, legal s (fs ++ []) w (ground arith) refl),
      )
      by_results (ok fs) (ok gs) (err e) p q r = (
        step
            (stops w w w {e = e} {fs = fs} {gs = gs} {hs = []} (inr (inr (ground arith)))
              (inl (ground arith)) (inl (ground arith)) (inr refl) (Permᴰ.refl (fs ++ (gs ++ []))))
            done,
        inr (e, refl, financial s (fs ++ (gs ++ [])) w (ground arith) refl),
      )
      by_results (ok fs) (ok gs) (ok hs) p q r =
          let t = with_updates s (Updates.new_findings (fs ++ (gs ++ hs))) in
          let (path, ends) = confirmation_sound t w in
          (
            step
                (specialists w w w {fs = fs} {gs = gs} {hs = hs} (ground arith) (ground arith)
                  (ground arith) (Permᴰ.refl (fs ++ (gs ++ hs))))
                path,
            ends,
          )

  -- A node that has its answer does not ask again.
  never_asks :
      (s : ReviewGraphState) (a : EvidenceConfirmation) (r : ReviewInterrupt) (w : World)
      → (confirm_evidence s (some a) w).0 ≡ ok (NodeResult.interrupts r)
      → ⊥
  unfolding confirm_evidence answered
  never_asks s a r w h = elim (Bool-cases s.require_evidence_confirmation) [
    | inr k ↦ ground arith
    | inl k ↦ elim (Bool-cases (is_reject a.decision)) [
      | inl k' ↦ ground arith
      | inr k' ↦ ground arith
    ]
  ]

  answer_sound :
      (s : ReviewGraphState) (q : ReviewInterrupt) (a : EvidenceConfirmation) (w : World)
      → let o = after_node s (Next.awaiting q) w (confirm_evidence s (some a) w).0 in
        Ends u backend parsers (some a) o.0 o.1
        × ((o.1 ≡ at s (Next.awaiting q)) × (o.0 ≢ ok tt)
            ⊎ ((c' : Checkpoint) × Resumes u backend parsers a (at s (Next.awaiting q)) c'
                × Steps u backend parsers c' o.1))
  unfolding after_confirmation
  answer_sound s q a w = by_result _ refl
    where
      by_result :
          (r : Result NodeResult)
          → (confirm_evidence s (some a) w).0 ≡ r
          → let o = after_node s (Next.awaiting q) w r in
            Ends u backend parsers (some a) o.0 o.1
            × ((o.1 ≡ at s (Next.awaiting q)) × (o.0 ≢ ok tt)
                ⊎ ((c' : Checkpoint) × Resumes u backend parsers a (at s (Next.awaiting q)) c'
                    × Steps u backend parsers c' o.1))
      by_result (err e) h = (inr (e, refl, answer w h), inl (refl, λ k. ground arith))
      by_result (ok (NodeResult.interrupts r)) h = absurd (never_asks s a r w h)
      by_result (ok (NodeResult.returns updates)) h =
          let t = with_updates s updates in
          let (path, ends) = branch_sound t w (after_evidence_confirmation t) (some a) in
          (ends, inr (after_confirmation s updates, resumes w h, path))

  answer_keeps :
      (a : EvidenceConfirmation) (i j : Uuid) (w : World) (c : Option Checkpoint)
      → j ≢ i
      → kept j (run_answer a i w c).1 ≡ kept j w
  answer_keeps a i j w none apart = refl
  answer_keeps a i j w (some c) apart = by_next c.next
    where
      by_next : (n : Next) → kept j (run_answer a i w (some (at c.values n))).1 ≡ kept j w
      by_next Next.specialists = refl
      by_next Next.unfinished = refl
      by_next Next.evidence_confirmation = refl
      by_next Next.synthesize = refl
      by_next Next.end = refl
      by_next (Next.awaiting q) =
          let stored =
            get-put w.checkpoints i j
              (after_node c.values (Next.awaiting q) w
                (confirm_evidence c.values (some a) w).0).1 in
          ground arith

  keeps_others :
      (input : Input) (i j : Uuid) (w : World) → j ≢ i → kept j (run_input input i w).1 ≡ kept j w
  keeps_others (Input.fresh s) i j w apart =
      let stored = get-put w.checkpoints i j (run_fresh s w).1 in ground arith
  keeps_others (Input.resume a) i j w apart = answer_keeps a i j w (kept i w) apart

  pub sequential_engine-IsDurable : IsDurable u backend parsers sequential_engine
  sequential_engine-IsDurable = record {
    on_fresh = λ s i w unknown.
        let (path, ends) = specialists_sound s w in
        let stored = get-put w.checkpoints i i (run_fresh s w).1 in
        ((run_fresh s w).1, ground arith, path, ends);
    on_resume = λ a s q i w there.
        let (ends, went) = answer_sound s q a w in
        let c = (after_node s (Next.awaiting q) w (confirm_evidence s (some a) w).0).1 in
        let stored = get-put w.checkpoints i i c in rw there (c, ground arith, ends, went);
    on_others = λ input i j w apart. keeps_others input i j w apart;
  }
