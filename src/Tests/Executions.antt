-- ===== src/Tests/Executions.antt =====
-- The review graph on a concrete case.
use mathlib.Core.List.Permᴰ
use multi_agent_system.Base.{◌∷◌, [], none, some, true, ◌≡◌, ◌≢◌, refl, inl, inr, arith, nat_eq}
use multi_agent_system.Base.Dict
use multi_agent_system.Exec.{ok, err, execution_not_found}
use multi_agent_system.Persistence.{World}
use multi_agent_system.Schemas.{SupplierCase, ReviewExecution, ReviewExecutionStatus, ReviewResult}
use multi_agent_system.Cases.Memory
use multi_agent_system.Graphs.State.{Next, Checkpoint, Updates, ReviewGraphState, with_updates}
use multi_agent_system.Graphs.Nodes.{
  run_specialist, renamed, security_review, legal_review, financial_review, synthesize,
  confirm_evidence, interrupt_request,
}
use multi_agent_system.Graphs.Steps.{Reaches, starts, steps, specialists, pauses}
use multi_agent_system.Graphs.Engine.{kept}
use multi_agent_system.Graphs.Workflow.{initial_state, start, run, resume, get_execution}
use multi_agent_system.Graphs.Invariant.{Inv, origin}
use multi_agent_system.Graphs.Consistent.{IsReport, execution-IsConsistent}
use multi_agent_system.Graphs.Completes.{Answers}
use multi_agent_system.Graphs.Liveness.{review-IsLive}
use multi_agent_system.Graphs.Failures.{foreign_execution}
use multi_agent_system.Tests.Fixtures.{library, supplier_case}
use multi_agent_system.Tests.Container.{known, confirmation, finding, parsers, answering, failing}
use multi_agent_system.Tests.SequentialEngine.{sequential_engine, sequential_engine-IsDurable}

abbrev first_state : ReviewGraphState
first_state = initial_state "answering" supplier_case 40 true 1000

abbrev waiting_state : ReviewGraphState
waiting_state =
    let f = renamed library 40 finding in
    with_updates first_state (Updates.new_findings (f ∷ f ∷ f ∷ []))

abbrev waiting : Checkpoint
waiting = record { values = waiting_state; next = Next.awaiting (interrupt_request waiting_state) }

reaches_waiting : Reaches library answering parsers first_state waiting
unfolding initial_state run_specialist security_review legal_review financial_review
    confirm_evidence with_updates
reaches_waiting =
    let f = renamed library 40 finding in
    steps
      (steps starts (
        specialists {s = first_state} known known known {fs = f ∷ []} {gs = f ∷ []} {hs = f ∷ []}
          {merged = f ∷ f ∷ f ∷ []} refl refl refl (Permᴰ.refl (f ∷ f ∷ f ∷ []))))
      (pauses {s = waiting_state} known refl)

execution-IsConsistent_example : Inv (origin first_state) waiting × IsReport waiting
execution-IsConsistent_example =
    execution-IsConsistent library answering parsers supplier_case 40 true 1000 waiting
      reaches_waiting

answering-Answers : Answers library answering parsers
unfolding run_specialist synthesize
answering-Answers = record {
  on_review = λ s task v. (renamed library s.execution_id finding ∷ [], refl);
  on_synthesis = λ s v. (_, refl);
}

no_thread : kept 40 known ≡ none
unfolding Dict.get
no_thread = refl

no_thread_drawn : kept 100 known ≡ none
unfolding Dict.get
no_thread_drawn = refl

review-IsLive_example :
    ((r : ReviewResult) × ((run "answering"
          (sequential_engine library answering parsers)
          supplier_case
          known).0
        ≡ ok r)
      × (r.review_id ≡ 100)
      × (r.case_id ≡ 5))
    × ((e : ReviewExecution) × ((start "answering"
            (sequential_engine library answering parsers)
            supplier_case
            40
            true
            known).0
          ≡ ok e)
        × (e.status ≡ ReviewExecutionStatus.awaiting_input))
    × ((e : ReviewExecution) × ((resume "answering"
            (sequential_engine library answering parsers)
            supplier_case
            40
            confirmation
            (start "answering"
              (sequential_engine library answering parsers)
              supplier_case
              40
              true
              known).1).0
          ≡ ok e)
        × (e.status ≡ ReviewExecutionStatus.completed))
review-IsLive_example =
    review-IsLive library answering parsers (sequential_engine library answering parsers)
      (sequential_engine-IsDurable library answering parsers) answering-Answers supplier_case 40
      confirmation known no_thread_drawn no_thread

abbrev thread_of_waiting : World
thread_of_waiting = record known { checkpoints = Dict.put Dict.empty 40 waiting }

there : kept 40 thread_of_waiting ≡ some waiting
unfolding Dict.get Dict.put
there = refl

-- Another case of the same tenant.
abbrev other_case : SupplierCase
other_case = record supplier_case { id = 77 }

of_another_case : waiting_state.case_id ≢ other_case.id
unfolding initial_state with_updates
of_another_case = λ same. ground arith

foreign_execution_example :
    (get_execution other_case 40 thread_of_waiting ≡ (err execution_not_found, thread_of_waiting))
    × (start "answering"
          (sequential_engine library answering parsers)
          other_case
          40
          true
          thread_of_waiting
        ≡ (err execution_not_found, thread_of_waiting))
    × (resume "answering"
          (sequential_engine library answering parsers)
          other_case
          40
          confirmation
          thread_of_waiting
        ≡ (err execution_not_found, thread_of_waiting))
foreign_execution_example =
    foreign_execution "answering" (sequential_engine library answering parsers) other_case 40 true
      confirmation waiting_state (Next.awaiting (interrupt_request waiting_state)) thread_of_waiting
      there (inr (inl of_another_case))

abbrev after_failure : World
after_failure =
    (start "failing" (sequential_engine library failing parsers) supplier_case 40 true known).1
