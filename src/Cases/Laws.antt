-- ===== src/Cases/Laws.antt =====
-- `InMemoryCaseRepository`: what a write changes, and what later reads return.
use multi_agent_system.Base.{
  List, [], ◌∷◌, ◌++◌, none, some, Uuid, ◌≡◌, ◌≢◌, refl, arith, inl, inr, Option-cases, nat_eq,
}
use multi_agent_system.Base.Dict
use multi_agent_system.Base.Dict.{get-put}
use multi_agent_system.Exec.{ok, err, case_not_found}
use multi_agent_system.Persistence.{World}
use multi_agent_system.Schemas.{
  SupplierCase, CaseStatus, ReviewResult, AuditEvent, AuditEventCreate,
}
use multi_agent_system.Cases.Memory.{
  or_empty, last, get, set_status, save_review, save_unless, add_review, get_review,
  get_latest_review, append_audit_event, add_event, stored_event, list_audit_events,
}

pub last-snoc : (xs : List ReviewResult) (x : ReviewResult) → last (xs ++ x ∷ []) ≡ some x
last-snoc [] x = refl
last-snoc (y ∷ xs) x = let rest = last-snoc xs x in ground arith

-- The reviews that are kept for a case, oldest first.
abbrev pub reviews_of : World → Uuid → List ReviewResult
reviews_of w i = or_empty (Dict.get w.case_store.reviews i)

abbrev pub events_of : World → Uuid → List AuditEvent
events_of w i = or_empty (Dict.get w.case_store.events i)

-- Saving a review is idempotent by its identifier: once a call has returned, each call with the
-- same review identifier returns the same review and changes nothing, and so does `get_review`.
save_review_idempotent :
    (result again r : ReviewResult) (w : World)
    → again.review_id ≡ result.review_id
    → (save_review result w).0 ≡ ok r
    → (save_review again (save_review result w).1 ≡ (ok r, (save_review result w).1))
      × (get_review result.review_id (save_review result w).1 ≡ (ok r, (save_review result w).1))
unfolding save_review save_unless add_review get_review
save_review_idempotent result again r w same h =
    elim (Option-cases (Dict.get w.case_store.reviews_by_id result.review_id)) [
      | inl fresh ↦
          let found = get-put w.case_store.reviews_by_id result.review_id result.review_id result in
          (ground arith, ground arith)
      | inr (x, known) ↦ (ground arith, ground arith)
    ]

-- A review that is saved for the first time is the latest of its case from then on, and the reviews
-- of other cases stay.
save_review-latest :
    (result : ReviewResult) (c : SupplierCase) (other : Uuid) (w : World)
    → Dict.get w.case_store.cases result.case_id ≡ some c
    → Dict.get w.case_store.reviews_by_id result.review_id ≡ none
    → other ≢ result.case_id
    → (get_latest_review result.case_id (save_review result w).1
        ≡ (ok result, (save_review result w).1))
      × (reviews_of (save_review result w).1 other ≡ reviews_of w other)
unfolding save_review save_unless add_review get_latest_review get
save_review-latest result c other w known fresh apart =
    let listed =
      get-put w.case_store.reviews result.case_id result.case_id
        (reviews_of w result.case_id ++ result ∷ []) in
    let elsewhere =
      get-put w.case_store.reviews result.case_id other
        (reviews_of w result.case_id ++ result ∷ []) in
    let newest = last-snoc (reviews_of w result.case_id) result in (ground arith, ground arith)

-- A review that is saved for the first time is returned, is the latest of its case from then on,
-- and leaves the reviews of other cases as they were. Saving any review under its identifier again
-- returns it and changes nothing, as does every save under an identifier that is known.
pub save_review_lem :
    (result again old : ReviewResult) (c : SupplierCase) (other : Uuid) (w v : World)
    → Dict.get w.case_store.cases result.case_id ≡ some c
    → Dict.get w.case_store.reviews_by_id result.review_id ≡ none
    → Dict.get v.case_store.reviews_by_id result.review_id ≡ some old
    → other ≢ result.case_id
    → again.review_id ≡ result.review_id
    → let t = (save_review result w).1 in
      ((save_review result w).0 ≡ ok result)
      × (get_latest_review result.case_id t ≡ (ok result, t))
      × (reviews_of t other ≡ reviews_of w other)
      × (get_review result.review_id t ≡ (ok result, t))
      × (save_review again t ≡ (ok result, t))
      × (save_review again v ≡ (ok old, v))
unfolding save_review save_unless
save_review_lem result again old c other w v known fresh taken apart same =
    let saved : (save_review result w).0 ≡ ok result = ground arith in
    let (newest, elsewhere) = save_review-latest result c other w known fresh apart in
    let (repeated, read) = save_review_idempotent result again result w same saved in
    (saved, newest, elsewhere, read, repeated, ground arith)

-- The audit trail only grows: an event that is appended to a known case stands behind all earlier
-- events of that case, with the identifier and the time that were drawn for it, and the trails of
-- other cases stay.
append_audit_event-trail :
    (e : AuditEventCreate) (c : SupplierCase) (other : Uuid) (w : World)
    → Dict.get w.case_store.cases e.case_id ≡ some c
    → other ≢ e.case_id
    → ((list_audit_events e.case_id (append_audit_event e w).1).0
        ≡ ok (
            events_of w e.case_id
            ++ stored_event e
                (w.host.random_uuids w.host.uuids_drawn)
                (w.host.clock w.host.clock_reads)
              ∷ []))
      × (events_of (append_audit_event e w).1 other ≡ events_of w other)
unfolding append_audit_event list_audit_events get add_event stored_event
append_audit_event-trail e c other w known apart =
    let stored =
      stored_event e (w.host.random_uuids w.host.uuids_drawn) (w.host.clock w.host.clock_reads) in
    let listed =
      get-put w.case_store.events e.case_id e.case_id (events_of w e.case_id ++ stored ∷ []) in
    let elsewhere =
      get-put w.case_store.events e.case_id other (events_of w e.case_id ++ stored ∷ []) in
    (ground arith, ground arith)

-- A change of status of a known case is what later reads return, with nothing else of the case
-- changed but the time of the update; other cases stay; for an unknown case it raises and changes
-- nothing.
set_status_lem :
    (case_id missing other : Uuid) (status : CaseStatus) (c : SupplierCase) (w : World)
    → Dict.get w.case_store.cases case_id ≡ some c
    → Dict.get w.case_store.cases missing ≡ none
    → other ≢ case_id
    → ((get case_id (set_status case_id status w).1).0
        ≡ ok (record c { status = status; updated_at = w.host.clock w.host.clock_reads }))
      × ((get other (set_status case_id status w).1).0 ≡ (get other w).0)
      × (set_status missing status w ≡ (err case_not_found, w))
unfolding set_status get
set_status_lem case_id missing other status c w known unknown apart =
    let updated = record c { status = status; updated_at = w.host.clock w.host.clock_reads } in
    let found = get-put w.case_store.cases case_id case_id updated in
    let elsewhere = get-put w.case_store.cases case_id other updated in
    (ground arith, ground arith, ground arith)

-- What is written to a case is what later reads of it return, and it touches no other case. An
-- event that is appended stands behind all earlier events of its case, with the identifier and the
-- time that were drawn for it. A change of status changes nothing else of the case but the time of
-- the update; for an unknown case it raises and changes nothing.
pub case_writes :
    (e : AuditEventCreate) (status : CaseStatus) (c : SupplierCase) (other missing : Uuid)
    (w : World)
    → Dict.get w.case_store.cases e.case_id ≡ some c
    → Dict.get w.case_store.cases missing ≡ none
    → other ≢ e.case_id
    → ((list_audit_events e.case_id (append_audit_event e w).1).0
        ≡ ok (
            events_of w e.case_id
            ++ stored_event e
                (w.host.random_uuids w.host.uuids_drawn)
                (w.host.clock w.host.clock_reads)
              ∷ []))
      × (events_of (append_audit_event e w).1 other ≡ events_of w other)
      × ((get e.case_id (set_status e.case_id status w).1).0
          ≡ ok (record c { status = status; updated_at = w.host.clock w.host.clock_reads }))
      × ((get other (set_status e.case_id status w).1).0 ≡ (get other w).0)
      × (set_status missing status w ≡ (err case_not_found, w))
case_writes e status c other missing w known unknown apart =
    let (grown, elsewhere) = append_audit_event-trail e c other w known apart in
    let (changed, kept, failed) =
      set_status_lem e.case_id missing other status c w known unknown apart in
    (grown, elsewhere, changed, kept, failed)
