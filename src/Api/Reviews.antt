-- ===== src/Api/Reviews.antt =====
-- apps/api/main.py: the routes of cases and of reviews that run to the end of the request. What is
-- raised leaves as it is: FastAPI answers it with status 500, unless it is an `HTTPException`.
use multi_agent_system.Base.{String, List, [], ◌∷◌, ◌++◌, Uuid, DateTime}
use multi_agent_system.Exec.{
  Exec, Error, pure, raise, catch, ◌>>=◌, ◌>>◌, http_error, case_not_found, review_not_found,
}
use multi_agent_system.Persistence.{World, uuid4, now_utc}
use multi_agent_system.Schemas.{
  Principal, Value, AuditEvent, AuditEventCreate, SupplierCase, SupplierCaseCreate, CaseStatus,
  ReviewResult,
}
use multi_agent_system.Outbox.Dispatcher.{class_name}
use multi_agent_system.Api.Container.{ApplicationContainer}
use multi_agent_system.Api.Guards.{
  get_authorized_case, require_analyst, system_actor, persist_completed_review,
}

unfoldable pub new_case : SupplierCaseCreate → Principal → Uuid → DateTime → SupplierCase
new_case payload p i now = record {
  id = i;
  tenant_id = p.tenant_id;
  supplier_name = payload.supplier_name;
  description = payload.description;
  status = CaseStatus.new;
  documents = payload.documents;
  created_at = now;
  updated_at = now;
}

unfoldable pub created_event : SupplierCase → Principal → AuditEventCreate
created_event c p = record {
  case_id = c.id;
  event_type = "case.created";
  actor_id = p.subject;
  payload = ("supplier_name", Value.text c.supplier_name) ∷ [];
}

unfoldable pub create_case :
    ApplicationContainer → SupplierCaseCreate → Principal → Exec World SupplierCase
unfolding new_case created_event
create_case d payload p = do
  now ← now_utc
  i ← uuid4
  created ← d.cases.create (new_case payload p i now)
  d.cases.append_audit_event (created_event created p)
  pure created

unfoldable pub get_case : ApplicationContainer → Uuid → Principal → Exec World SupplierCase
get_case d case_id p = get_authorized_case d case_id p

unfoldable pub started_event : Uuid → Principal → AuditEventCreate
started_event case_id p = record {
  case_id = case_id;
  event_type = "review.started";
  actor_id = system_actor;
  payload = ("initiated_by", Value.text p.subject) ∷ [];
}

unfoldable pub failed_event : Uuid → List (String × Value) → Error → AuditEventCreate
failed_event case_id about e = record {
  case_id = case_id;
  event_type = "review.failed";
  actor_id = system_actor;
  payload = about ++ ("error_type", Value.text (class_name e)) ∷ [];
}

-- `except Exception as exc` around the workflow.
unfoldable pub fail_review :
    {A : Type 0} → ApplicationContainer → Uuid → List (String × Value) → Error → Exec World A
unfolding failed_event
fail_review d case_id about e = do
  d.cases.set_status case_id CaseStatus.review_failed
  d.cases.append_audit_event (failed_event case_id about e)
  raise e

unfoldable pub review_case : ApplicationContainer → Uuid → Principal → Exec World ReviewResult
unfolding started_event fail_review
review_case d case_id p = do
  c ← get_authorized_case d case_id p
  require_analyst p
  d.cases.set_status case_id CaseStatus.in_review
  d.cases.append_audit_event (started_event case_id p)
  result ← catch (d.workflow.run c) (fail_review d case_id [])
  persist_completed_review d result
  pure result

abbrev pub review_as_not_found : Error → Exec World ReviewResult
review_as_not_found case_not_found = raise (http_error 404)
review_as_not_found review_not_found = raise (http_error 404)
review_as_not_found e = raise e

unfoldable pub get_latest_review : ApplicationContainer → Uuid → Principal → Exec World ReviewResult
get_latest_review d case_id p = do
  get_authorized_case d case_id p
  catch (d.cases.get_latest_review case_id) review_as_not_found

unfoldable pub list_audit_events :
    ApplicationContainer → Uuid → Principal → Exec World (List AuditEvent)
list_audit_events d case_id p = do
  get_authorized_case d case_id p
  d.cases.list_audit_events case_id
