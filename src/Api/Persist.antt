-- ===== src/Api/Persist.antt =====
-- `persist_completed_review`, over the in-memory case repository.
use multi_agent_system.Base.{[], ◌∷◌, ◌++◌, none, some, true, false, ◌≡◌, refl, arith, Uuid, nat_eq}
use multi_agent_system.Base.Dict
use multi_agent_system.Base.Dict.{get-put}
use multi_agent_system.Exec.{ok, err, review_not_found}
use multi_agent_system.Persistence.{World}
use multi_agent_system.Schemas.{SupplierCase, CaseStatus, ReviewResult}
use multi_agent_system.Cases.Memory.{
  last, save_review, save_unless, add_review, get_review, get_latest_review, get,
}
use multi_agent_system.Cases.Laws.{last-snoc, reviews_of}
use multi_agent_system.Api.Container.{ApplicationContainer}
use multi_agent_system.Api.Guards.{persist_completed_review, persist_new, completed_event}
use multi_agent_system.Api.Trail.{in_memory, HasStatus, trail, sets_status, appends_event}

unknown_review :
    (i : Uuid) (w : World)
    → Dict.get w.case_store.reviews_by_id i ≡ none
    → get_review i w ≡ (err review_not_found, w)
unfolding get_review
unknown_review i w h = ground arith

known_review :
    (i : Uuid) (r : ReviewResult) (w : World)
    → Dict.get w.case_store.reviews_by_id i ≡ some r
    → get_review i w ≡ (ok r, w)
unfolding get_review
known_review i r w h = ground arith

-- A review under a new identifier.
saves_review :
    (r : ReviewResult) (w : World)
    → Dict.get w.case_store.reviews_by_id r.review_id ≡ none
    → (t : World) × (save_review r w ≡ (ok r, t))
      × (t.case_store.cases ≡ w.case_store.cases)
      × (t.case_store.events ≡ w.case_store.events)
      × (Dict.get t.case_store.reviews_by_id r.review_id ≡ some r)
      × (last (reviews_of t r.case_id) ≡ some r)
unfolding save_review save_unless add_review
saves_review r w fresh =
    let indexed = get-put w.case_store.reviews_by_id r.review_id r.review_id r in
    let listed =
      get-put w.case_store.reviews r.case_id r.case_id (reviews_of w r.case_id ++ r ∷ []) in
    let newest = last-snoc (reviews_of w r.case_id) r in
    ((save_review r w).1, ground arith, ground arith, ground arith, ground arith, ground arith)

pub persists :
    (d : ApplicationContainer) (r : ReviewResult) (c : SupplierCase) (w : World)
    → Dict.get w.case_store.cases r.case_id ≡ some c
    → Dict.get w.case_store.reviews_by_id r.review_id ≡ none
    → (t : World) × (persist_completed_review (in_memory d) r w ≡ (ok true, t))
      × HasStatus r.case_id CaseStatus.pending_approval t
      × (trail t r.case_id ≡ trail w r.case_id ++ completed_event r ∷ [])
      × (Dict.get t.case_store.reviews_by_id r.review_id ≡ some r)
      × (last (reviews_of t r.case_id) ≡ some r)
unfolding persist_completed_review persist_new
persists d r c w known fresh =
    let missing = unknown_review r.review_id w fresh in
    let (w1, eq1, cases1, events1, index1, latest1) = saves_review r w fresh in
    let known1 : Dict.get w1.case_store.cases r.case_id ≡ some c = ground arith in
    let (c2, w2, eq2, known2, status2, reviews2, index2, events2) =
      sets_status r.case_id CaseStatus.pending_approval c w1 known1 in
    let about : (completed_event r).case_id ≡ r.case_id = unfold completed_event in refl in
    let (x, w3, eq3, trail3, cases3, reviews3, index3) =
      appends_event (completed_event r) c2 w2 (ground arith) in
    (w3, ground arith, (c2, ground arith, status2), ground arith, ground arith, ground arith)

-- With the in-memory case repository, whose latest review is the one saved last, persisting a
-- completed review of a known case makes it the latest review of the case, which then awaits
-- approval, and adds one event to the trail, if the identifier is new; each later call with this
-- identifier returns False and changes nothing, as does a call with a known identifier.
pub persist_completed_review_idempotent :
    (d : ApplicationContainer) (r again old : ReviewResult) (c : SupplierCase) (w v : World)
    → Dict.get w.case_store.cases r.case_id ≡ some c
    → Dict.get w.case_store.reviews_by_id r.review_id ≡ none
    → again.review_id ≡ r.review_id
    → Dict.get v.case_store.reviews_by_id r.review_id ≡ some old
    → let t = (persist_completed_review (in_memory d) r w).1 in
      ((persist_completed_review (in_memory d) r w).0 ≡ ok true)
      × HasStatus r.case_id CaseStatus.pending_approval t
      × (get_latest_review r.case_id t ≡ (ok r, t))
      × (trail t r.case_id ≡ trail w r.case_id ++ completed_event r ∷ [])
      × (persist_completed_review (in_memory d) again t ≡ (ok false, t))
      × (persist_completed_review (in_memory d) again v ≡ (ok false, v))
unfolding persist_completed_review get_latest_review get
persist_completed_review_idempotent d r again old c w v known fresh same there =
    let (t, eq, (c', kept, status), grown, index, latest) = persists d r c w known fresh in
    let found : get_review again.review_id t ≡ (ok r, t) =
      known_review again.review_id r t (ground arith) in
    let found' : get_review again.review_id v ≡ (ok old, v) =
      known_review again.review_id old v (ground arith) in
    (
      ground arith,
      (c', ground arith, status),
      ground arith,
      ground arith,
      ground arith,
      ground arith,
    )
