-- ===== src/Api/Executions.antt =====
-- apps/api/main.py: the routes of review executions, which stop for an analyst and are resumed.
use multi_agent_system.Base.{
  String, List, [], ◌∷◌, Option, none, some, Bool, true, false, ◌&&◌, ◌||◌, Uuid, if◌then◌else◌,
}
use multi_agent_system.Exec.{
  Exec, Error, pure, raise, catch, ◌>>=◌, ◌>>◌, http_error, execution_not_found, execution_state,
  runtime_error,
}
use multi_agent_system.Persistence.{World}
use multi_agent_system.Schemas.{
  Principal, Value, AuditEventCreate, SupplierCase, CaseStatus, same_case_status, ReviewResult,
  ReviewExecution, ReviewExecutionStart, ReviewExecutionStatus, EvidenceConfirmation,
  EvidenceConfirmationDecision,
}
use multi_agent_system.Api.Container.{ApplicationContainer}
use multi_agent_system.Api.Guards.{
  get_authorized_case, require_analyst, system_actor, persist_completed_review,
}
use multi_agent_system.Api.Reviews.{fail_review}

-- `status is other`, of enum members.
abbrev pub same_execution_status : ReviewExecutionStatus → ReviewExecutionStatus → Bool
same_execution_status ReviewExecutionStatus.running ReviewExecutionStatus.running = true
same_execution_status ReviewExecutionStatus.awaiting_input ReviewExecutionStatus.awaiting_input =
    true
same_execution_status ReviewExecutionStatus.completed ReviewExecutionStatus.completed = true
same_execution_status ReviewExecutionStatus.cancelled ReviewExecutionStatus.cancelled = true
same_execution_status _ _ = false

abbrev pub about_execution : Uuid → List (String × Value)
about_execution i = ("execution_id", Value.uuid i) ∷ []

unfoldable pub execution_event : String → String → Uuid → List (String × Value) → AuditEventCreate
execution_event event_type actor case_id payload = record {
  case_id = case_id;
  event_type = event_type;
  actor_id = actor;
  payload = payload;
}

unfoldable pub started_execution_event :
    Uuid → Uuid → Principal → ReviewExecutionStart → AuditEventCreate
unfolding execution_event
started_execution_event case_id i p payload =
    execution_event "review.started" system_actor case_id (
      ("execution_id", Value.uuid i)
      ∷ ("initiated_by", Value.text p.subject)
      ∷ ("evidence_confirmation_required", Value.flag payload.require_evidence_confirmation)
      ∷ [])

-- A new execution; the flag is `created`.
unfoldable pub start_new :
    ApplicationContainer
    → SupplierCase
    → Uuid
    → Uuid
    → ReviewExecutionStart
    → Principal
    → Error
    → Exec World (ReviewExecution × Bool)
unfolding started_execution_event
start_new d c case_id i payload p execution_not_found = do
  d.cases.set_status case_id CaseStatus.in_review
  d.cases.append_audit_event (started_execution_event case_id i p payload)
  execution ←
      catch (d.workflow.start c i payload.require_evidence_confirmation)
        (fail_review d case_id (about_execution i))
  pure (execution, true)
start_new d c case_id i payload p e = raise e

unfoldable pub persist_result : ApplicationContainer → Option ReviewResult → Exec World (Unit {0})
persist_result d none = raise runtime_error
persist_result d (some result) = do persist_completed_review d result; pure tt

unfoldable pub cancel_review :
    ApplicationContainer → Uuid → Uuid → Principal → Exec World (Unit {0})
unfolding execution_event
cancel_review d case_id i p = do
  d.cases.set_status case_id CaseStatus.new
  d.cases.append_audit_event
      (execution_event "review.cancelled" p.subject case_id (about_execution i))
  pure tt

unfoldable pub settle_started :
    ApplicationContainer
    → SupplierCase
    → Uuid
    → Uuid
    → Principal
    → Bool
    → ReviewExecution
    → Exec World (Unit {0})
unfolding persist_result cancel_review execution_event
settle_started d c case_id i p created execution =
    if same_execution_status execution.status ReviewExecutionStatus.completed
    then persist_result d execution.result
    else if same_execution_status execution.status ReviewExecutionStatus.cancelled
        && same_case_status c.status CaseStatus.in_review
    then cancel_review d case_id i p
    else if created && same_execution_status execution.status ReviewExecutionStatus.awaiting_input
    then (do
      d.cases.append_audit_event
          (execution_event "review.awaiting_input" system_actor case_id (about_execution i))
      pure tt)
    else pure tt

unfoldable pub start_review_execution :
    ApplicationContainer → Uuid → ReviewExecutionStart → Principal → Exec World ReviewExecution
unfolding start_new settle_started
start_review_execution d case_id payload p = do
  c ← get_authorized_case d case_id p
  require_analyst p
  let i = d.workflow.execution_id_for c.tenant_id c.id payload.idempotency_key
  (execution, created) ←
      catch (do found ← d.workflow.get_execution c i; pure (found, false))
        (start_new d c case_id i payload p)
  settle_started d c case_id i p created execution
  pure execution

abbrev pub execution_as_not_found : Error → Exec World ReviewExecution
execution_as_not_found execution_not_found = raise (http_error 404)
execution_as_not_found e = raise e

unfoldable pub get_review_execution :
    ApplicationContainer → Uuid → Uuid → Principal → Exec World ReviewExecution
get_review_execution d case_id i p = do
  c ← get_authorized_case d case_id p
  catch (d.workflow.get_execution c i) execution_as_not_found

-- `decision.value`
unfoldable pub confirmation_value : EvidenceConfirmationDecision → String
confirmation_value EvidenceConfirmationDecision.confirm = "confirm"
confirmation_value EvidenceConfirmationDecision.reject = "reject"

abbrev pub execution_as_status : Error → Exec World (ReviewExecution × ReviewExecution)
execution_as_status execution_not_found = raise (http_error 404)
execution_as_status execution_state = raise (http_error 409)
execution_as_status e = raise e

unfoldable pub record_resumed :
    ApplicationContainer
    → Uuid
    → Uuid
    → EvidenceConfirmation
    → Principal
    → ReviewExecution
    → Exec World (Unit {0})
unfolding execution_event confirmation_value
record_resumed d case_id i payload p current =
    if same_execution_status current.status ReviewExecutionStatus.awaiting_input
    then (do
      d.cases.append_audit_event (
          execution_event "review.resumed" p.subject case_id (
            ("execution_id", Value.uuid i)
            ∷ ("decision", Value.text (confirmation_value payload.decision))
            ∷ []))
      pure tt)
    else pure tt

unfoldable pub settle_resumed :
    ApplicationContainer
    → SupplierCase
    → Uuid
    → Uuid
    → Principal
    → ReviewExecution
    → ReviewExecution
    → Exec World (Unit {0})
unfolding persist_result cancel_review
settle_resumed d c case_id i p current execution =
    if same_execution_status execution.status ReviewExecutionStatus.completed
    then persist_result d execution.result
    else if same_execution_status execution.status ReviewExecutionStatus.cancelled
        && (same_execution_status current.status ReviewExecutionStatus.awaiting_input
            || same_case_status c.status CaseStatus.in_review)
    then cancel_review d case_id i p
    else pure tt

unfoldable pub resume_review_execution :
    ApplicationContainer
    → Uuid
    → Uuid
    → EvidenceConfirmation
    → Principal
    → Exec World ReviewExecution
unfolding record_resumed settle_resumed
resume_review_execution d case_id i payload p = do
  c ← get_authorized_case d case_id p
  require_analyst p
  (current, execution) ←
      catch
        (do
          current ← d.workflow.get_execution c i
          execution ← d.workflow.resume c i payload
          pure (current, execution))
        execution_as_status
  record_resumed d case_id i payload p current
  settle_resumed d c case_id i p current execution
  pure execution
