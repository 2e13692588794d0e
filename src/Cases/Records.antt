-- ===== src/Cases/Records.antt =====
-- packages/persistence/repositories.py: `SqlAlchemyCaseRepository`, cases with their documents and
-- audit events. The identifiers of the documents are drawn in their order.
use multi_agent_system.Base.{
  ℕ, suc, ◌+◌, List, [], ◌∷◌, ◌++◌, map, Option, none, some, Bool, true, false, not, ◌&&◌, ◌||◌,
  ◌==◌, Uuid, DateTime, leb, ltb, length, select, any, find_first, update_where, if◌then◌else◌,
}
use multi_agent_system.Exec.{
  Exec, ok, err, gets, or_raise, modify, ◌>>=◌, ◌>>◌, case_not_found, review_not_found,
  integrity_error, value_error,
}
use multi_agent_system.Persistence.{
  FindingRecord, World, SupplierCaseRecord, DocumentRecord, ReviewRunRecord, AuditEventRecord,
  uuid4, now_utc, has_case, admits_event,
}
use multi_agent_system.Schemas.{
  SupplierCase, CaseStatus, DocumentInput, ReviewResult, AuditEvent, AuditEventCreate,
}
use multi_agent_system.Cases.Memory.{stored_event}
use multi_agent_system.Cases.Sql.{case_status_value, case_status_of, get_review}

unfoldable pub case_row : SupplierCase → SupplierCaseRecord
unfolding case_status_value
case_row c = record {
  id = c.id;
  tenant_id = c.tenant_id;
  supplier_name = c.supplier_name;
  description = c.description;
  status = case_status_value c.status;
  created_at = c.created_at;
  updated_at = c.updated_at;
}

-- `enumerate(supplier_case.documents)`, from a position and a number of drawn identifiers on.
unfoldable pub document_rows : Uuid → (ℕ → Uuid) → ℕ → ℕ → List DocumentInput → List DocumentRecord
document_rows case_id draw position drawn [] = []
document_rows case_id draw position drawn (d ∷ ds) =
    record {
      id = draw drawn;
      case_id = case_id;
      title = d.title;
      position = position;
      content = d.content;
      source_uri = d.source_uri;
    }
    ∷ document_rows case_id draw (suc position) (suc drawn) ds

unfoldable pub admits_documents : List DocumentRecord → List DocumentRecord → Bool
admits_documents rows [] = true
admits_documents rows (d ∷ ds) =
    not (any (λ r. r.id == d.id) rows)
    && not (any (λ r. r.id == d.id) ds)
    && admits_documents rows ds

unfoldable pub with_case : SupplierCaseRecord → List DocumentRecord → World → World
with_case c rows w = record w {
  database = record w.database {
    supplier_cases = w.database.supplier_cases ++ c ∷ [];
    documents = w.database.documents ++ rows;
  };
}

abbrev pub drawn_for : SupplierCase → World → World
drawn_for c w = record w {
  host = record w.host { uuids_drawn = w.host.uuids_drawn + length c.documents };
}

abbrev pub rows_for : SupplierCase → World → List DocumentRecord
rows_for c w = document_rows c.id w.host.random_uuids 0 w.host.uuids_drawn c.documents

unfoldable pub create : SupplierCase → Exec World SupplierCase
unfolding case_row document_rows with_case
create c w =
    if not (has_case w.database c.id) && admits_documents w.database.documents (rows_for c w)
    then (ok c, with_case (case_row c) (rows_for c w) (drawn_for c w))
    else (err integrity_error, drawn_for c w)

-- `sorted(record.documents, key=lambda item: item.position)`
unfoldable pub insert_by_position : DocumentRecord → List DocumentRecord → List DocumentRecord
insert_by_position d [] = d ∷ []
insert_by_position d (r ∷ rows) =
    if leb d.position r.position then d ∷ r ∷ rows else r ∷ insert_by_position d rows

unfoldable pub sort_by_position : List DocumentRecord → List DocumentRecord
unfolding insert_by_position
sort_by_position [] = []
sort_by_position (d ∷ rows) = insert_by_position d (sort_by_position rows)

unfoldable pub document_from_row : DocumentRecord → DocumentInput
document_from_row r = record { title = r.title; content = r.content; source_uri = r.source_uri }

abbrev with_status : SupplierCaseRecord → List DocumentRecord → CaseStatus → SupplierCase
with_status r rows status = record {
  id = r.id;
  tenant_id = r.tenant_id;
  supplier_name = r.supplier_name;
  description = r.description;
  status = status;
  documents = map document_from_row (sort_by_position rows);
  created_at = r.created_at;
  updated_at = r.updated_at;
}

-- `_case_from_record`
unfoldable pub case_from_record : SupplierCaseRecord → List DocumentRecord → Option SupplierCase
unfolding document_from_row sort_by_position
case_from_record r rows = elim (case_status_of r.status) [
  | none ↦ none
  | some status ↦ some (with_status r rows status)
]

abbrev pub case_of : World → Uuid → Option SupplierCaseRecord
case_of w i = find_first (λ c. c.id == i) w.database.supplier_cases

abbrev pub documents_of : World → Uuid → List DocumentRecord
documents_of w i = select (λ d. d.case_id == i) w.database.documents

unfoldable pub get : Uuid → Exec World SupplierCase
unfolding case_from_record
get case_id = do
  r ← or_raise (← gets (λ w. case_of w case_id)) case_not_found
  rows ← gets (λ w. documents_of w case_id)
  or_raise (case_from_record r rows) value_error

unfoldable pub write_status : CaseStatus → DateTime → SupplierCaseRecord → SupplierCaseRecord
unfolding case_status_value
write_status status now r = record r { status = case_status_value status; updated_at = now }

unfoldable pub set_status : Uuid → CaseStatus → Exec World SupplierCase
unfolding get write_status
set_status case_id status = do
  or_raise (← gets (λ w. case_of w case_id)) case_not_found
  now ← now_utc
  modify (λ w. record w {
    database = record w.database {
      supplier_cases =
          update_where (λ c. c.id == case_id) (write_status status now) w.database.supplier_cases;
    };
  })
  get case_id

-- `order_by(completed_at.desc()).limit(1)`: PostgreSQL puts a null first.
unfoldable pub is_later : Option DateTime → Option DateTime → Bool
is_later none t = true
is_later (some s) none = false
is_later (some s) (some t) = leb t s

unfoldable pub latest : List ReviewRunRecord → Option ReviewRunRecord
unfolding is_later
latest [] = none
latest (r ∷ rows) = elim (latest rows) [
  | none ↦ some r
  | some s ↦ if is_later r.completed_at s.completed_at then some r else some s
]

unfoldable pub get_latest_review :
    (List FindingRecord → List FindingRecord) → Uuid → Exec World ReviewResult
unfolding get latest
get_latest_review arrange case_id = do
  get case_id
  r ←
      or_raise (← gets (λ w. latest (select (λ x. x.case_id == case_id) w.database.review_runs)))
        review_not_found
  get_review arrange r.id

abbrev row_of_event : AuditEvent → AuditEventRecord
row_of_event e = record {
  id = e.id;
  case_id = e.case_id;
  event_type = e.event_type;
  actor_id = e.actor_id;
  payload_json = e.payload;
  created_at = e.created_at;
}

unfoldable pub commit_event : AuditEvent → Exec World AuditEvent
commit_event e w =
    if admits_event w.database (row_of_event e)
    then (
      ok e,
      record w {
        database = record w.database {
          audit_events = w.database.audit_events ++ row_of_event e ∷ [];
        };
      },
    )
    else (err integrity_error, w)

unfoldable pub append_audit_event : AuditEventCreate → Exec World AuditEvent
unfolding get stored_event commit_event
append_audit_event e = do
  get e.case_id
  i ← uuid4
  now ← now_utc
  commit_event (stored_event e i now)

-- `order_by(created_at, id)`
unfoldable pub event_before : AuditEventRecord → AuditEventRecord → Bool
event_before e f = ltb e.created_at f.created_at || (e.created_at == f.created_at && leb e.id f.id)

unfoldable pub insert_event : AuditEventRecord → List AuditEventRecord → List AuditEventRecord
unfolding event_before
insert_event e [] = e ∷ []
insert_event e (f ∷ fs) = if event_before e f then e ∷ f ∷ fs else f ∷ insert_event e fs

unfoldable pub sort_events : List AuditEventRecord → List AuditEventRecord
unfolding insert_event
sort_events [] = []
sort_events (e ∷ es) = insert_event e (sort_events es)

abbrev event_of_row : AuditEventRecord → AuditEvent
event_of_row r = record {
  event = record {
    case_id = r.case_id;
    event_type = r.event_type;
    actor_id = r.actor_id;
    payload = r.payload_json;
  };
  id = r.id;
  created_at = r.created_at;
}

unfoldable pub list_audit_events : Uuid → Exec World (List AuditEvent)
unfolding get sort_events
list_audit_events case_id = do
  get case_id
  gets (λ w.
      map event_of_row (sort_events (select (λ e. e.case_id == case_id) w.database.audit_events)))
