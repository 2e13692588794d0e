-- ===== src/Tests/Api.antt =====
-- Requests to the API on concrete cases.
use multi_agent_system.Base.{◌∷◌, [], ◌++◌, none, some, true, false, ◌≡◌, refl, inr, nat_eq}
use multi_agent_system.Base.Dict
use multi_agent_system.Exec.{ok, err, pure, http_error}
use multi_agent_system.Persistence.{World}
use multi_agent_system.Schemas.{Role, SupplierCaseCreate, CaseStatus, has_role, contains_role}
use multi_agent_system.Cases.Memory
use multi_agent_system.Api.Guards.{may_see, persist_completed_review, persist_new, completed_event}
use multi_agent_system.Api.Reviews.{
  create_case, created_event, new_case, get_case, review_case, get_latest_review, list_audit_events,
  started_event,
}
use multi_agent_system.Api.Executions.{
  start_review_execution, get_review_execution, resume_review_execution,
}
use multi_agent_system.Api.Evidence.{
  index_case_documents, search_case_evidence, propose_case_action,
}
use multi_agent_system.Api.Container.{ApplicationContainer}
use multi_agent_system.Api.Access.{hidden_case, analyst_required}
use multi_agent_system.Api.Trail.{in_memory, HasStatus, trail}
use multi_agent_system.Api.Created.{case_made, create_case-get_case}
use multi_agent_system.Api.Persist.{persist_completed_review_idempotent}
use multi_agent_system.Api.Settled.{review_case-IsSettled, begun}
use multi_agent_system.Tests.Fixtures.{stranger, person, supplier_case, review, proposal_request}
use multi_agent_system.Tests.Container.{container, known, analyst, start_request, confirmation}

found : Memory.get 5 known ≡ (ok supplier_case, known)
unfolding Memory.get Dict.get Dict.put
found = refl

stored : Dict.get known.case_store.cases 5 ≡ some supplier_case
unfolding Dict.get Dict.put
stored = refl

new_review : Dict.get known.case_store.reviews_by_id 7 ≡ none
unfolding Dict.get Dict.put
new_review = refl

foreign : may_see stranger supplier_case ≡ false
unfolding may_see contains_role
foreign = refl

own : (r : Role) → may_see (person "ann" r) supplier_case ≡ true
unfolding may_see contains_role
own Role.analyst = refl
own Role.approver = refl
own Role.executor = refl
own Role.admin = refl

hidden_case_example :
    (get_case container 5 stranger known ≡ (err (http_error 404), known))
    × (review_case container 5 stranger known ≡ (err (http_error 404), known))
    × (start_review_execution container 5 start_request stranger known
        ≡ (err (http_error 404), known))
    × (get_review_execution container 5 40 stranger known ≡ (err (http_error 404), known))
    × (resume_review_execution container 5 40 confirmation stranger known
        ≡ (err (http_error 404), known))
    × (get_latest_review container 5 stranger known ≡ (err (http_error 404), known))
    × (list_audit_events container 5 stranger known ≡ (err (http_error 404), known))
    × (index_case_documents container 5 stranger known ≡ (err (http_error 404), known))
    × (search_case_evidence container 5 "terms" stranger known ≡ (err (http_error 404), known))
    × (propose_case_action container 5 proposal_request stranger known
        ≡ (err (http_error 404), known))
hidden_case_example =
    hidden_case container 5 40 stranger known start_request confirmation "terms" proposal_request
      (inr (supplier_case, found, foreign))

approver_only : has_role (person "ann" Role.approver) Role.analyst ≡ false
unfolding has_role contains_role
approver_only = refl

analyst_role : has_role analyst Role.analyst ≡ true
unfolding has_role contains_role
analyst_role = refl

analyst_required_example :
    (review_case container 5 (person "ann" Role.approver) known ≡ (err (http_error 403), known))
    × (start_review_execution container 5 start_request (person "ann" Role.approver) known
        ≡ (err (http_error 403), known))
    × (resume_review_execution container 5 40 confirmation (person "ann" Role.approver) known
        ≡ (err (http_error 403), known))
    × (index_case_documents container 5 (person "ann" Role.approver) known
        ≡ (err (http_error 403), known))
analyst_required_example =
    analyst_required container 5 40 (person "ann" Role.approver) supplier_case known start_request
      confirmation found (own Role.approver) approver_only

abbrev persisted : World
persisted = (persist_completed_review (in_memory container) review known).1

kept_review : Dict.get persisted.case_store.reviews_by_id 7 ≡ some review
unfolding persist_completed_review persist_new Memory.get_review Memory.save_review
    Memory.save_unless Memory.add_review Memory.set_status Memory.get Memory.append_audit_event
    Memory.add_event completed_event Dict.get Dict.put
kept_review = refl

persist_completed_review_idempotent_example :
    ((persist_completed_review (in_memory container) review known).0 ≡ ok true)
    × HasStatus 5 CaseStatus.pending_approval persisted
    × (Memory.get_latest_review 5 persisted ≡ (ok review, persisted))
    × (trail persisted 5 ≡ trail known 5 ++ completed_event review ∷ [])
    × (persist_completed_review
          (in_memory container)
          (record review { model_backend = "other" })
          persisted
        ≡ (ok false, persisted))
    × (persist_completed_review
          (in_memory container)
          (record review { model_backend = "other" })
          persisted
        ≡ (ok false, persisted))
persist_completed_review_idempotent_example =
    persist_completed_review_idempotent container review (record review { model_backend = "other" })
      review supplier_case known persisted stored new_review refl kept_review

-- A container whose workflow returns a review.
abbrev reviewing : ApplicationContainer
reviewing = record container { workflow = record container.workflow { run = λ c. pure review } }

abbrev reviewed : World
reviewed = (review_case (in_memory reviewing) 5 analyst known).1

begun_new : Dict.get (begun 5 analyst known).case_store.reviews_by_id 7 ≡ none
unfolding Dict.get Memory.set_status Dict.put Memory.append_audit_event started_event
begun_new = refl

review_case-IsSettled_example :
    ((review_case (in_memory reviewing) 5 analyst known).0 ≡ ok review)
    × HasStatus 5 CaseStatus.pending_approval reviewed
    × (trail reviewed 5 ≡ trail known 5 ++ started_event 5 analyst ∷ completed_event review ∷ [])
review_case-IsSettled_example =
    review_case-IsSettled reviewing 5 analyst supplier_case (ok review) (begun 5 analyst known)
      known stored (own Role.analyst) analyst_role refl refl (refl, begun_new)

abbrev new_request : SupplierCaseCreate
new_request = record { supplier_name = "Supplier"; description = ""; documents = [] }

foreign_made : may_see stranger (case_made new_request analyst known) ≡ false
unfolding may_see contains_role new_case
foreign_made = refl

abbrev after_creation : World
after_creation = (create_case (in_memory container) new_request analyst known).1

create_case-get_case_example :
    ((create_case (in_memory container) new_request analyst known).0
      ≡ ok (case_made new_request analyst known))
    × (get_case
          (in_memory container)
          (case_made new_request analyst known).id
          analyst
          after_creation
        ≡ (ok (case_made new_request analyst known), after_creation))
    × (get_case
          (in_memory container)
          (case_made new_request analyst known).id
          stranger
          after_creation
        ≡ (err (http_error 404), after_creation))
    × (trail after_creation (case_made new_request analyst known).id
        ≡ trail known (case_made new_request analyst known).id
          ++ created_event (case_made new_request analyst known) analyst ∷ [])
create_case-get_case_example =
    create_case-get_case container new_request analyst stranger known foreign_made
