-- ===== src/Tests/Cases.antt =====
-- The in-memory case repository and the Step Functions adapter on concrete requests.
use multi_agent_system.Base.{
  [], ◌∷◌, ◌++◌ as append, none, some, ◌≡◌, refl, arith, nat_eq, ltb, if◌then◌else◌, String,
}
use multi_agent_system.Base.Dict
use multi_agent_system.Exec.{ok, err, case_not_found, client_error}
use multi_agent_system.Persistence.{World}
use multi_agent_system.Schemas.{Role, CaseStatus, AuditEventCreate, GovernedAction}
use multi_agent_system.Cases.Memory.{
  get, set_status, save_review, save_unless, add_review, get_review, get_latest_review,
  append_audit_event, stored_event, list_audit_events,
}
use multi_agent_system.Cases.Laws.{reviews_of, events_of, save_review_lem, case_writes}
use multi_agent_system.Governance.Service.{proposal_for}
use multi_agent_system.Workflows.{StepFunctionsClient, start, start_again, execution_name, joined}
use multi_agent_system.Tests.Fixtures.{
  world, supplier_case, review, library, proposal_request, person,
}

abbrev empty : World
empty = world [] []

abbrev known : World
known = record empty {
  case_store = record empty.case_store { cases = Dict.put Dict.empty 5 supplier_case };
}

supplier_case_known : Dict.get known.case_store.cases 5 ≡ some supplier_case
unfolding Dict.get Dict.put
supplier_case_known = refl

no_case_known : Dict.get known.case_store.cases 6 ≡ none
unfolding Dict.get Dict.put
no_case_known = refl

no_review_known : Dict.get known.case_store.reviews_by_id 7 ≡ none
unfolding Dict.get Dict.put
no_review_known = refl

abbrev after_save : World
after_save = (save_review review known).1

review_known : Dict.get after_save.case_store.reviews_by_id 7 ≡ some review
unfolding save_review save_unless add_review Dict.get Dict.put
review_known = refl

save_review_lem_example :
    ((save_review review known).0 ≡ ok review)
    × (get_latest_review 5 after_save ≡ (ok review, after_save))
    × (reviews_of after_save 6 ≡ reviews_of known 6)
    × (get_review 7 after_save ≡ (ok review, after_save))
    × (save_review (record review { model_backend = "other" }) after_save ≡ (ok review, after_save))
    × (save_review (record review { model_backend = "other" }) after_save ≡ (ok review, after_save))
save_review_lem_example =
    save_review_lem review (record review { model_backend = "other" }) review supplier_case 6 known
      after_save supplier_case_known no_review_known review_known (λ e. omega arith) refl

abbrev started_event : AuditEventCreate
started_event = record { case_id = 5; event_type = "case.created"; actor_id = "ann"; payload = [] }

case_writes_example :
    ((list_audit_events 5 (append_audit_event started_event known).1).0
      ≡ ok (append (events_of known 5) (stored_event started_event 100 1000 ∷ [])))
    × (events_of (append_audit_event started_event known).1 7 ≡ events_of known 7)
    × ((get 5 (set_status 5 CaseStatus.in_review known).1).0
        ≡ ok (record supplier_case { status = CaseStatus.in_review; updated_at = 1000 }))
    × ((get 7 (set_status 5 CaseStatus.in_review known).1).0 ≡ (get 7 known).0)
    × (set_status 6 CaseStatus.in_review known ≡ (err case_not_found, known))
case_writes_example =
    case_writes started_event CaseStatus.in_review supplier_case 7 6 known supplier_case_known
      no_case_known (λ e. omega arith)

-- A client that starts the execution once: whether it runs stands in the count of drawn
-- identifiers.
abbrev client : StepFunctionsClient
client = record {
  start_execution = λ arn name input w. (
    if ltb w.host.uuids_drawn 1
        then ok (some (joined "arn:aws:states:eu:1" "approval" name))
        else err (client_error "ExecutionAlreadyExists"),
    record w { host = record w.host { uuids_drawn = 1 } },
  );
  send_task_success = λ token output w. (ok tt, w);
}

abbrev action : GovernedAction
action = proposal_for library supplier_case review proposal_request (person "ann" Role.analyst) 1000

abbrev arn : String
arn = "arn:aws:states:eu:1:stateMachine:approval"

start_again_example :
    ((start library client arn action empty).0
      ≡ ok (joined "arn:aws:states:eu:1" "approval" (execution_name library action)))
    × ((start library client arn action (start library client arn action empty).1).0
        ≡ ok (joined "arn:aws:states:eu:1" "approval" (execution_name library action)))
unfolding start
start_again_example =
    start_again library client "arn:aws:states:eu:1" "approval" action empty
      (start library client arn action empty).1 refl refl refl refl
