-- ===== src/Api/Trail.antt =====
-- What the API writes to the in-memory case repository: the status of the case and its audit trail.
use multi_agent_system.Base.{List, [], ◌∷◌, ◌++◌, some, ◌≡◌, refl, arith, Uuid, nat_eq}
use multi_agent_system.Base.Dict
use multi_agent_system.Base.Dict.{get-put}
use multi_agent_system.Exec.{ok}
use multi_agent_system.Persistence.{World}
use multi_agent_system.Schemas.{SupplierCase, CaseStatus, AuditEvent, AuditEventCreate}
use multi_agent_system.Cases.Memory.{get, set_status, append_audit_event, add_event, stored_event}
use multi_agent_system.Cases.Laws.{events_of}
use multi_agent_system.Cases.Interface.{in_memory_case_repository}
use multi_agent_system.Api.Container.{ApplicationContainer}

abbrev pub in_memory : ApplicationContainer → ApplicationContainer
in_memory d = record d { cases = in_memory_case_repository }

-- The case is kept with this status.
abbrev pub HasStatus : Uuid → CaseStatus → World → Type 0
HasStatus i s w = (c : SupplierCase) × (Dict.get w.case_store.cases i ≡ some c) × (c.status ≡ s)

-- The events of the trail that stands at the end, without the identifiers and times drawn for them.
abbrev pub events : List AuditEvent → List AuditEventCreate
events [] = []
events (x ∷ xs) = x.event ∷ events xs

abbrev pub trail : World → Uuid → List AuditEventCreate
trail w i = events (events_of w i)

pub events-append : (xs ys : List AuditEvent) → events (xs ++ ys) ≡ events xs ++ events ys
events-append [] ys = refl
events-append (x ∷ xs) ys = let rest = events-append xs ys in ground arith

pub snoc-snoc :
    (xs : List AuditEventCreate) (x y : AuditEventCreate)
    → (xs ++ x ∷ []) ++ y ∷ [] ≡ xs ++ x ∷ y ∷ []
snoc-snoc [] x y = refl
snoc-snoc (z ∷ xs) x y = let rest = snoc-snoc xs x y in ground arith

-- A change of status of a known case.
pub sets_status :
    (i : Uuid) (s : CaseStatus) (c : SupplierCase) (w : World)
    → Dict.get w.case_store.cases i ≡ some c
    → (c' : SupplierCase) × (t : World) × (set_status i s w ≡ (ok c', t))
      × (Dict.get t.case_store.cases i ≡ some c')
      × (c'.status ≡ s)
      × (t.case_store.reviews ≡ w.case_store.reviews)
      × (t.case_store.reviews_by_id ≡ w.case_store.reviews_by_id)
      × (t.case_store.events ≡ w.case_store.events)
unfolding set_status get
sets_status i s c w known =
    let updated : SupplierCase = record c {
      status = s;
      updated_at = w.host.clock w.host.clock_reads;
    } in
    let found = get-put w.case_store.cases i i updated in
    (
      updated,
      (set_status i s w).1,
      ground arith,
      ground arith,
      refl,
      ground arith,
      ground arith,
      ground arith,
    )

-- An event that is appended to the trail of a known case.
pub appends_event :
    (e : AuditEventCreate) (c : SupplierCase) (w : World)
    → Dict.get w.case_store.cases e.case_id ≡ some c
    → (x : AuditEvent) × (t : World) × (append_audit_event e w ≡ (ok x, t))
      × (trail t e.case_id ≡ trail w e.case_id ++ e ∷ [])
      × (t.case_store.cases ≡ w.case_store.cases)
      × (t.case_store.reviews ≡ w.case_store.reviews)
      × (t.case_store.reviews_by_id ≡ w.case_store.reviews_by_id)
unfolding append_audit_event get add_event stored_event
appends_event e c w known =
    let stored =
      stored_event e (w.host.random_uuids w.host.uuids_drawn) (w.host.clock w.host.clock_reads) in
    let listed =
      get-put w.case_store.events e.case_id e.case_id (events_of w e.case_id ++ stored ∷ []) in
    let grown = events-append (events_of w e.case_id) (stored ∷ []) in
    (
      stored,
      (append_audit_event e w).1,
      ground arith,
      ground arith,
      ground arith,
      ground arith,
      ground arith,
    )
