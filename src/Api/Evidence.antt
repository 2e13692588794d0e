-- ===== src/Api/Evidence.antt =====
-- apps/api/main.py: the routes of retrieval and of governed actions. FastAPI has checked the
-- length of the query before the handler runs.
use multi_agent_system.Base.{String, List, [], ◌∷◌, Uuid}
use multi_agent_system.Exec.{
  Exec, Error, pure, raise, catch, ◌>>=◌, ◌>>◌, http_error, review_not_found, action_not_found,
  authorization_denied, idempotency_conflict, action_state,
}
use multi_agent_system.Persistence.{World}
use multi_agent_system.Schemas.{
  Principal, Value, AuditEventCreate, IndexResult, RetrievedChunk, GovernedAction,
  ActionProposalRequest, ApprovalRequest,
}
use multi_agent_system.Api.Container.{ApplicationContainer}
use multi_agent_system.Api.Guards.{get_authorized_case, require_analyst}

unfoldable pub indexed_event : Uuid → IndexResult → AuditEventCreate
indexed_event case_id result = record {
  case_id = case_id;
  event_type = "documents.indexed";
  actor_id = "system:retrieval";
  payload =
      ("document_count", Value.number result.document_count)
      ∷ ("chunk_count", Value.number result.chunk_count)
      ∷ ("embedding_backend", Value.text result.embedding_backend)
      ∷ [];
}

unfoldable pub index_case_documents :
    ApplicationContainer → Uuid → Principal → Exec World IndexResult
unfolding indexed_event
index_case_documents d case_id p = do
  c ← get_authorized_case d case_id p
  require_analyst p
  result ← d.retrieval.index_case c
  d.cases.append_audit_event (indexed_event case_id result)
  pure result

unfoldable pub search_case_evidence :
    ApplicationContainer → Uuid → String → Principal → Exec World (List RetrievedChunk)
search_case_evidence d case_id query p = do
  get_authorized_case d case_id p
  d.retrieval.search case_id query d.retrieval_limit

abbrev pub proposal_as_status : Error → Exec World GovernedAction
proposal_as_status review_not_found = raise (http_error 409)
proposal_as_status authorization_denied = raise (http_error 403)
proposal_as_status idempotency_conflict = raise (http_error 409)
proposal_as_status e = raise e

unfoldable pub propose_case_action :
    ApplicationContainer → Uuid → ActionProposalRequest → Principal → Exec World GovernedAction
propose_case_action d case_id payload p = do
  c ← get_authorized_case d case_id p
  catch (do review ← d.cases.get_latest_review case_id; d.governance.propose c review payload p)
      proposal_as_status

abbrev pub action_as_not_found : Error → Exec World GovernedAction
action_as_not_found action_not_found = raise (http_error 404)
action_as_not_found authorization_denied = raise (http_error 404)
action_as_not_found e = raise e

unfoldable pub get_action : ApplicationContainer → Uuid → Principal → Exec World GovernedAction
get_action d action_id p = catch (d.governance.get action_id p) action_as_not_found

abbrev pub decision_as_status : Error → Exec World GovernedAction
decision_as_status action_not_found = raise (http_error 404)
decision_as_status authorization_denied = raise (http_error 403)
decision_as_status action_state = raise (http_error 409)
decision_as_status e = raise e

unfoldable pub decide_action :
    ApplicationContainer → Uuid → ApprovalRequest → Principal → Exec World GovernedAction
decide_action d action_id payload p =
    catch (d.governance.decide action_id payload p) decision_as_status
