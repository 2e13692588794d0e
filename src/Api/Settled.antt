-- ===== src/Api/Settled.antt =====
-- `review_case`, over the in-memory case repository: how a review that was started ends.
use multi_agent_system.Base.{[], ◌∷◌, ◌++◌, none, some, true, ◌≡◌, refl, arith, Uuid, nat_eq}
use multi_agent_system.Base.Dict
use multi_agent_system.Exec.{Error, Result, ok, err, ◌>>◌}
use multi_agent_system.Persistence.{World}
use multi_agent_system.Schemas.{
  Role, Principal, has_role, AuditEvent, AuditEventCreate, SupplierCase, CaseStatus, ReviewResult,
}
use multi_agent_system.Cases.Memory
use multi_agent_system.Api.Container.{ApplicationContainer}
use multi_agent_system.Api.Guards.{may_see, require_analyst, completed_event}
use multi_agent_system.Api.Reviews.{review_case, started_event, failed_event, fail_review}
use multi_agent_system.Api.Access.{seen}
use multi_agent_system.Api.Trail.{
  in_memory, HasStatus, trail, snoc-snoc, sets_status, appends_event,
}
use multi_agent_system.Api.Persist.{persists}

-- The state in which the workflow starts.
abbrev pub begun : Uuid → Principal → World → World
begun case_id p w =
    ((Memory.set_status case_id CaseStatus.in_review
        >> Memory.append_audit_event (started_event case_id p))
      w).1

abbrev pub final_status : Result ReviewResult → CaseStatus
final_status (ok r) = CaseStatus.pending_approval
final_status (err e) = CaseStatus.review_failed

abbrev pub final_event : Uuid → Result ReviewResult → AuditEventCreate
final_event case_id (ok r) = completed_event r
final_event case_id (err e) = failed_event case_id [] e

-- The review that the workflow returned belongs to the case and is new.
abbrev pub IsNew : Uuid → Result ReviewResult → World → Type 0
IsNew case_id (ok r) w =
    (r.case_id ≡ case_id) × (Dict.get w.case_store.reviews_by_id r.review_id ≡ none)
IsNew case_id (err e) w = Unit

pub found_case :
    (i : Uuid) (c : SupplierCase) (w : World)
    → Dict.get w.case_store.cases i ≡ some c
    → Memory.get i w ≡ (ok c, w)
unfolding Memory.get
found_case i c w h = ground arith

begins :
    (case_id : Uuid) (p : Principal) (c : SupplierCase) (w : World)
    → Dict.get w.case_store.cases case_id ≡ some c
    → (c1 : SupplierCase) × (w1 : World) × (x : AuditEvent) × (Memory.set_status case_id
          CaseStatus.in_review w
        ≡ (ok c1, w1))
      × (Memory.append_audit_event (started_event case_id p) w1 ≡ (ok x, begun case_id p w))
      × (Dict.get (begun case_id p w).case_store.cases case_id ≡ some c1)
      × (trail (begun case_id p w) case_id ≡ trail w case_id ++ started_event case_id p ∷ [])
begins case_id p c w known =
    let (c1, w1, eq1, known1, status1, reviews1, index1, events1) =
      sets_status case_id CaseStatus.in_review c w known in
    let about : (started_event case_id p).case_id ≡ case_id = unfold started_event in refl in
    let (x, w2, eq2, trail2, cases2, reviews2, index2) =
      appends_event (started_event case_id p) c1 w1 (ground arith) in
    (c1, w1, x, eq1, ground arith, ground arith, ground arith)

fails :
    {A : Type 0} (d : ApplicationContainer) (case_id : Uuid) (e : Error) (c : SupplierCase)
    (w : World)
    → Dict.get w.case_store.cases case_id ≡ some c
    → (t : World) × (fail_review {A = A} (in_memory d) case_id [] e w ≡ (err e, t))
      × HasStatus case_id CaseStatus.review_failed t
      × (trail t case_id ≡ trail w case_id ++ failed_event case_id [] e ∷ [])
unfolding fail_review
fails d case_id e c w known =
    let (c1, w1, eq1, known1, status1, reviews1, index1, events1) =
      sets_status case_id CaseStatus.review_failed c w known in
    let about : (failed_event case_id [] e).case_id ≡ case_id = unfold failed_event in refl in
    let (x, w2, eq2, trail2, cases2, reviews2, index2) =
      appends_event (failed_event case_id [] e) c1 w1 (ground arith) in
    (w2, ground arith, (c1, ground arith, status1), ground arith)

-- With the in-memory case repository, a review that an analyst starts never leaves its case in
-- review, whether the workflow returns or raises: the answer is the workflow's; after a result the
-- case awaits approval and the trail has the start and the completion, after an exception the case
-- is marked as failed and the trail has the start and the failure. The workflow leaves the case
-- repository alone, and its result is a new review of the case.
pub review_case-IsSettled :
    (d : ApplicationContainer) (case_id : Uuid) (p : Principal) (c : SupplierCase)
    (answer : Result ReviewResult) (v w : World)
    → Dict.get w.case_store.cases case_id ≡ some c
    → may_see p c ≡ true
    → has_role p Role.analyst ≡ true
    → d.workflow.run c (begun case_id p w) ≡ (answer, v)
    → v.case_store ≡ (begun case_id p w).case_store
    → IsNew case_id answer v
    → let t = (review_case (in_memory d) case_id p w).1 in
      ((review_case (in_memory d) case_id p w).0 ≡ answer)
      × HasStatus case_id (final_status answer) t
      × (trail t case_id
          ≡ trail w case_id ++ started_event case_id p ∷ final_event case_id answer ∷ [])
unfolding review_case require_analyst
review_case-IsSettled d case_id p c (ok r) v w known own role ran kept (about, fresh) =
    let admitted = seen (in_memory d) case_id p c w (found_case case_id c w known) own in
    let (c1, w1, x, eq1, eq2, known2, trail2) = begins case_id p c w known in
    let (t, eq3, (c3, known3, status3), trail3, index3, latest3) =
      persists d r c1 v (ground arith) fresh in
    let joined = snoc-snoc (trail w case_id) (started_event case_id p) (completed_event r) in
    (ground arith, (c3, ground arith, status3), ground arith)
review_case-IsSettled d case_id p c (err e) v w known own role ran kept new =
    let admitted = seen (in_memory d) case_id p c w (found_case case_id c w known) own in
    let (c1, w1, x, eq1, eq2, known2, trail2) = begins case_id p c w known in
    let (t, eq3, (c3, known3, status3), trail3) =
      fails {A = ReviewResult} d case_id e c1 v (ground arith) in
    let joined =
      snoc-snoc (trail w case_id) (started_event case_id p) (failed_event case_id [] e) in
    (ground arith, (c3, ground arith, status3), ground arith)
