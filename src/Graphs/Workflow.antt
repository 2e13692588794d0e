-- ===== src/Graphs/Workflow.antt =====
-- packages/graphs/supplier_review.py: `SupplierReviewWorkflow`. What other requests do while a
-- method waits for LangGraph is part of what `ainvoke` does.
use Prim.Native.String.{◌++◌}
use multi_agent_system.Base.{
  String, List, [], ◌∷◌, Option, none, some, Bool, false, ◌&&◌, Uuid, DateTime, ◌==◌, str_eq,
  if◌then◌else◌,
}
use multi_agent_system.Exec.{
  Exec, Result, ok, err, pure, raise, gets, of_result, require, ◌>>=◌, ◌>>◌, execution_not_found,
  execution_state, runtime_error, key_error,
}
use multi_agent_system.Persistence.{World, UuidLibrary, uuid4, now_utc}
use multi_agent_system.Schemas.{
  SupplierCase, Recommendation, ReviewResult, ReviewInterrupt, ReviewExecution,
  ReviewExecutionStatus, EvidenceConfirmation,
}
use multi_agent_system.Graphs.State.{ReviewGraphState, StateSnapshot, snapshot_of}
use multi_agent_system.Graphs.Engine.{Engine, Input, kept}

unfoldable pub execution_id_for : UuidLibrary → String → Uuid → Uuid → Uuid
execution_id_for u tenant_id case_id idempotency_key = u.uuid5 u.namespace_url (
    "supplier-review:" ++ (tenant_id ++ (":" ++ (u.str case_id ++ (":" ++ u.str idempotency_key)))))

-- The input of a new execution.
unfoldable pub initial_state : String → SupplierCase → Uuid → Bool → DateTime → ReviewGraphState
initial_state backend_name c i require_evidence_confirmation started_at = record {
  tenant_id = c.tenant_id;
  case_id = c.id;
  execution_id = i;
  supplier_case = c;
  findings = [];
  recommendation = none;
  model_backend = backend_name;
  started_at = started_at;
  completed_at = none;
  require_evidence_confirmation = require_evidence_confirmation;
  evidence_confirmation = none;
  cancelled = false;
}

unfoldable pub review_result : ReviewGraphState → Recommendation → DateTime → ReviewResult
review_result s r completed_at = record {
  review_id = s.execution_id;
  case_id = s.case_id;
  findings = s.findings;
  recommendation = r;
  model_backend = s.model_backend;
  started_at = s.started_at;
  completed_at = completed_at;
}

unfoldable pub result_from_state : ReviewGraphState → Result ReviewResult
unfolding review_result
result_from_state s = elim s.recommendation [
  | none ↦ err runtime_error
  | some r ↦ elim s.completed_at [
    | none ↦ err runtime_error
    | some completed_at ↦ ok (review_result s r completed_at)
  ]
]

unfoldable pub execution_with :
    ReviewGraphState
    → Option ReviewInterrupt
    → ReviewExecutionStatus
    → Option ReviewResult
    → ReviewExecution
execution_with s interrupt status result = record {
  execution_id = s.execution_id;
  case_id = s.case_id;
  status = status;
  interrupt = interrupt;
  result = result;
}

abbrev first : List ReviewInterrupt → Option ReviewInterrupt
first [] = none
first (r ∷ rs) = some r

abbrev waiting_status : Option ReviewInterrupt → ReviewExecutionStatus
waiting_status none = ReviewExecutionStatus.running
waiting_status (some r) = ReviewExecutionStatus.awaiting_input

unfoldable pub execution_from_values :
    ReviewGraphState → Option ReviewInterrupt → Result ReviewExecution
unfolding result_from_state execution_with
execution_from_values s interrupt =
    if s.cancelled
    then ok (execution_with s interrupt ReviewExecutionStatus.cancelled none)
    else elim s.recommendation [
      | none ↦ ok (execution_with s interrupt (waiting_status interrupt) none)
      | some r ↦ elim (result_from_state s) [
        | err e ↦ err e
        | ok result ↦ ok (execution_with s interrupt ReviewExecutionStatus.completed (some result))
      ]
    ]

-- The keys are missing from the values of an unknown thread.
unfoldable pub execution_from_snapshot : StateSnapshot → Result ReviewExecution
unfolding execution_from_values
execution_from_snapshot snapshot = elim snapshot.values [
  | none ↦ err key_error
  | some s ↦ execution_from_values s (first snapshot.interrupts)
]

unfoldable pub is_in_scope : ReviewGraphState → SupplierCase → Uuid → Bool
is_in_scope s c i = str_eq s.tenant_id c.tenant_id && s.case_id == c.id && s.execution_id == i

unfoldable pub validate_scope : ReviewGraphState → SupplierCase → Uuid → Exec World (Unit {0})
unfolding is_in_scope
validate_scope s c i = require (is_in_scope s c i) execution_not_found

abbrev pub aget_state : Uuid → Exec World StateSnapshot
aget_state i = gets (λ w. snapshot_of (kept i w))

abbrev found_execution :
    StateSnapshot → SupplierCase → Uuid → Option ReviewGraphState → Exec World ReviewExecution
found_execution snapshot c i none = raise execution_not_found
found_execution snapshot c i (some s) = do
  validate_scope s c i
  of_result (execution_from_snapshot snapshot)

unfoldable pub get_execution : SupplierCase → Uuid → Exec World ReviewExecution
unfolding validate_scope execution_from_snapshot
get_execution c i = do snapshot ← aget_state i; found_execution snapshot c i snapshot.values

module _ (backend_name : String) (engine : Engine) where
  unfoldable pub invoke : Input → Uuid → Exec World ReviewExecution
  unfolding execution_from_snapshot
  invoke input i = do
    engine.ainvoke input i
    snapshot ← aget_state i
    of_result (execution_from_snapshot snapshot)

  unfoldable pub start_or_return :
      SupplierCase
      → Uuid
      → Bool
      → StateSnapshot
      → Option ReviewGraphState
      → Exec World ReviewExecution
  unfolding validate_scope execution_from_snapshot initial_state invoke
  start_or_return c i required existing (some s) = do
    validate_scope s c i
    of_result (execution_from_snapshot existing)
  start_or_return c i required existing none = do
    started_at ← now_utc
    invoke (Input.fresh (initial_state backend_name c i required started_at)) i

  unfoldable pub start : SupplierCase → Uuid → Bool → Exec World ReviewExecution
  unfolding start_or_return
  start c i required = do
    existing ← aget_state i
    start_or_return c i required existing existing.values

  unfoldable pub result_of : Option ReviewResult → Exec World ReviewResult
  result_of none = raise runtime_error
  result_of (some result) = pure result

  unfoldable pub run : SupplierCase → Exec World ReviewResult
  unfolding start result_of
  run c = do i ← uuid4; execution ← start c i false; result_of execution.result

  unfoldable pub resume_from :
      Uuid
      → EvidenceConfirmation
      → ReviewExecution
      → ReviewExecutionStatus
      → Exec World ReviewExecution
  unfolding invoke
  resume_from i confirmation current ReviewExecutionStatus.completed = pure current
  resume_from i confirmation current ReviewExecutionStatus.cancelled = pure current
  resume_from i confirmation current ReviewExecutionStatus.awaiting_input =
      invoke (Input.resume confirmation) i
  resume_from i confirmation current ReviewExecutionStatus.running = raise execution_state

  unfoldable pub resume : SupplierCase → Uuid → EvidenceConfirmation → Exec World ReviewExecution
  unfolding get_execution resume_from
  resume c i confirmation = do
    current ← get_execution c i
    resume_from i confirmation current current.status
