-- ===== src/Api/Access.antt =====
-- Who reaches a case through the API.
use multi_agent_system.Base.{String, true, false, ◌≡◌, ◌⊎◌, inl, inr, arith, Uuid}
use multi_agent_system.Exec.{ok, err, http_error, case_not_found}
use multi_agent_system.Persistence.{World}
use multi_agent_system.Schemas.{
  Role, Principal, has_role, SupplierCase, ReviewExecutionStart, EvidenceConfirmation,
  ActionProposalRequest,
}
use multi_agent_system.Api.Container.{ApplicationContainer}
use multi_agent_system.Api.Guards.{may_see, get_authorized_case, require_analyst}
use multi_agent_system.Api.Reviews.{get_case, review_case, get_latest_review, list_audit_events}
use multi_agent_system.Api.Executions.{
  start_review_execution, get_review_execution, resume_review_execution,
}
use multi_agent_system.Api.Evidence.{
  index_case_documents, search_case_evidence, propose_case_action,
}

-- The repository has no such case, or it has one that the principal may not see.
abbrev pub IsHidden : ApplicationContainer → Uuid → Principal → World → Type 0
IsHidden d case_id p w =
    (d.cases.get case_id w ≡ (err case_not_found, w))
    ⊎ ((c : SupplierCase) × (d.cases.get case_id w ≡ (ok c, w)) × (may_see p c ≡ false))

pub hidden :
    (d : ApplicationContainer) (case_id : Uuid) (p : Principal) (w : World)
    → IsHidden d case_id p w
    → get_authorized_case d case_id p w ≡ (err (http_error 404), w)
unfolding get_authorized_case
hidden d case_id p w (inl missing) = ground arith
hidden d case_id p w (inr (c, found, foreign)) = ground arith

-- A case of another tenant cannot be told from one that does not exist: without the administrator
-- role, every route of the case answers both with status 404 and changes nothing, whatever else the
-- request asks for.
pub hidden_case :
    (d : ApplicationContainer) (case_id i : Uuid) (p : Principal) (w : World)
    (start : ReviewExecutionStart) (confirmation : EvidenceConfirmation) (query : String)
    (request : ActionProposalRequest)
    → IsHidden d case_id p w
    → (get_case d case_id p w ≡ (err (http_error 404), w))
      × (review_case d case_id p w ≡ (err (http_error 404), w))
      × (start_review_execution d case_id start p w ≡ (err (http_error 404), w))
      × (get_review_execution d case_id i p w ≡ (err (http_error 404), w))
      × (resume_review_execution d case_id i confirmation p w ≡ (err (http_error 404), w))
      × (get_latest_review d case_id p w ≡ (err (http_error 404), w))
      × (list_audit_events d case_id p w ≡ (err (http_error 404), w))
      × (index_case_documents d case_id p w ≡ (err (http_error 404), w))
      × (search_case_evidence d case_id query p w ≡ (err (http_error 404), w))
      × (propose_case_action d case_id request p w ≡ (err (http_error 404), w))
unfolding get_case review_case start_review_execution get_review_execution resume_review_execution
    get_latest_review list_audit_events index_case_documents search_case_evidence
    propose_case_action
hidden_case d case_id i p w start confirmation query request h =
    let denied = hidden d case_id p w h in
    (
      ground arith,
      ground arith,
      ground arith,
      ground arith,
      ground arith,
      ground arith,
      ground arith,
      ground arith,
      ground arith,
      ground arith,
    )

pub seen :
    (d : ApplicationContainer) (case_id : Uuid) (p : Principal) (c : SupplierCase) (w : World)
    → d.cases.get case_id w ≡ (ok c, w)
    → may_see p c ≡ true
    → get_authorized_case d case_id p w ≡ (ok c, w)
unfolding get_authorized_case
seen d case_id p c w found own = ground arith

-- Who may see a case but is no analyst can neither start, resume nor run a review of it, nor index
-- its documents: the answer is status 403, and nothing changes.
pub analyst_required :
    (d : ApplicationContainer) (case_id i : Uuid) (p : Principal) (c : SupplierCase) (w : World)
    (start : ReviewExecutionStart) (confirmation : EvidenceConfirmation)
    → d.cases.get case_id w ≡ (ok c, w)
    → may_see p c ≡ true
    → has_role p Role.analyst ≡ false
    → (review_case d case_id p w ≡ (err (http_error 403), w))
      × (start_review_execution d case_id start p w ≡ (err (http_error 403), w))
      × (resume_review_execution d case_id i confirmation p w ≡ (err (http_error 403), w))
      × (index_case_documents d case_id p w ≡ (err (http_error 403), w))
unfolding review_case start_review_execution resume_review_execution index_case_documents
    require_analyst
analyst_required d case_id i p c w start confirmation found own role =
    let admitted = seen d case_id p c w found own in
    (ground arith, ground arith, ground arith, ground arith)
