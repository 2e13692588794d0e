-- ===== src/Api/Guards.antt =====
-- apps/api/main.py: what the handlers share. The dependency on the principal is an argument of each
-- handler, since FastAPI resolves it before the handler runs.
use multi_agent_system.Base.{String, [], ◌∷◌, Bool, true, false, ◌||◌, Uuid, str_eq, length}
use multi_agent_system.Exec.{
  Exec, Error, pure, raise, catch, require, ◌>>=◌, ◌>>◌, http_error, authentication_error,
  case_not_found, review_not_found,
}
use multi_agent_system.Persistence.{World}
use multi_agent_system.Schemas.{
  Role, Principal, has_role, contains_role, Value, AuditEventCreate, SupplierCase, CaseStatus,
  Decision, ReviewResult,
}
use multi_agent_system.Api.Container.{ApplicationContainer, Headers}

abbrev pub unauthorized : Error → Exec World Principal
unauthorized authentication_error = raise (http_error 401)
unauthorized e = raise e

unfoldable pub get_principal : ApplicationContainer → Headers → Exec World Principal
get_principal d headers = catch (d.authenticator.authenticate headers) unauthorized

abbrev pub case_as_not_found : {A : Type 0} → Error → Exec World A
case_as_not_found case_not_found = raise (http_error 404)
case_as_not_found e = raise e

unfoldable pub may_see : Principal → SupplierCase → Bool
may_see p c = contains_role Role.admin p.roles || str_eq c.tenant_id p.tenant_id

unfoldable pub get_authorized_case :
    ApplicationContainer → Uuid → Principal → Exec World SupplierCase
unfolding may_see
get_authorized_case d case_id p = do
  c ← catch (d.cases.get case_id) case_as_not_found
  require (may_see p c) (http_error 404)
  pure c

unfoldable pub require_analyst : Principal → Exec World (Unit {0})
require_analyst p = require (has_role p Role.analyst) (http_error 403)

abbrev pub system_actor : String
system_actor = "system:review-workflow"

-- `decision.value`
unfoldable pub decision_value : Decision → String
decision_value Decision.approve = "approve"
decision_value Decision.remediate = "remediate"
decision_value Decision.escalate = "escalate"
decision_value Decision.reject = "reject"

unfoldable pub completed_event : ReviewResult → AuditEventCreate
unfolding decision_value
completed_event result = record {
  case_id = result.case_id;
  event_type = "review.completed";
  actor_id = system_actor;
  payload =
      ("review_id", Value.uuid result.review_id)
      ∷ ("decision", Value.text (decision_value result.recommendation.decision))
      ∷ ("finding_count", Value.number (length result.findings))
      ∷ [];
}

unfoldable pub persist_new : ApplicationContainer → ReviewResult → Error → Exec World Bool
unfolding completed_event
persist_new d result review_not_found = do
  d.cases.save_review result
  d.cases.set_status result.case_id CaseStatus.pending_approval
  d.cases.append_audit_event (completed_event result)
  pure true
persist_new d result e = raise e

-- Whether the review is new.
unfoldable pub persist_completed_review : ApplicationContainer → ReviewResult → Exec World Bool
unfolding persist_new
persist_completed_review d result =
    catch (do d.cases.get_review result.review_id; pure false) (persist_new d result)
