-- ===== src/Governance/Sql/Lawful.antt =====
-- The PostgreSQL repository fulfils the contract.
use multi_agent_system.Base.{
  Uuid, Option, none, some, true, false, ◌≡◌, ◌≢◌, refl, ◌∙◌, ◌==◌, if◌then◌else◌, arith,
  Option-cases, Bool-cases, inl, inr, List, [], ◌∷◌, find_first, update_where, str_eq, str_eq_iff,
}
use multi_agent_system.Base.Keys.{found_key}
use multi_agent_system.Exec.{
  Result, ok, err, action_not_found, transition_conflict, integrity_error, value_error,
}
use multi_agent_system.Persistence.{
  World, GovernedActionRecord, AuditEventRecord, admits_event, uuid4, now_utc,
}
use multi_agent_system.Schemas.{
  GovernedAction, ActionStatus, AuditEventCreate, status_value, status_of_value-status_value,
}
use multi_agent_system.Governance.Laws.{
  View, Saved, SameProposal, SameTransition, refused, unseen, stored, IsLawful, IsKeyed,
}
use multi_agent_system.Governance.Sql.{
  is_valid_record, row_of, get, save_transition, sql_repository, action_from_record,
  action_with_status, apply_transition, commit_transition, audit_record,
}

abbrev pub found : Option GovernedActionRecord → Result GovernedAction
found none = err action_not_found
found (some r) = action_from_record r

abbrev pub view : View
view w i = found (row_of w i)

pub get-view : (i : Uuid) (w : World) → get i w ≡ (view w i, w)
unfolding get
get-view i w = ground arith

-- A row that is updated in place is found under the same key.
find-update :
    (i j : Uuid) (f : GovernedActionRecord → GovernedActionRecord)
    (rows : List GovernedActionRecord)
    → ((r : GovernedActionRecord) → (f r).id ≡ r.id)
    → find_first (λ r. r.id == j) (update_where (λ r. r.id == i) f rows) ≡ (
        if i == j
        then elim (find_first (λ r. r.id == i) rows) [ none ↦ none | some r ↦ some (f r) ]
        else find_first (λ r. r.id == j) rows)
find-update i j f [] keeps = ground arith
find-update i j f (r ∷ rows) keeps = ground (arith, find-update i j f rows keeps, keeps r)

-- An update leaves a row as valid as it was.
valid-apply_transition :
    (a : GovernedAction) (r : GovernedActionRecord)
    → is_valid_record (apply_transition a r) ≡ is_valid_record r
unfolding is_valid_record apply_transition
valid-apply_transition a r = refl

-- A row that is not valid cannot be read.
unreadable :
    (r : GovernedActionRecord) → is_valid_record r ≡ false → action_from_record r ≡ err value_error
unfolding action_from_record
unreadable r h = ground arith

loaded :
    (a : GovernedAction) (r : GovernedActionRecord)
    → is_valid_record r ≡ true
    → action_from_record (apply_transition a r)
      ≡ ok (action_with_status (apply_transition a r) a.status)
unfolding action_from_record
loaded a r valid =
    let still = valid-apply_transition a r in
    let status : (apply_transition a r).status ≡ status_value a.status =
      unfold apply_transition in refl in
    ground (arith, status_of_value-status_value a.status)

loads_status :
    (r : GovernedActionRecord) (s : ActionStatus)
    → is_valid_record r ≡ true
    → str_eq r.status (status_value s) ≡ true
    → action_from_record r ≡ ok (action_with_status r s)
unfolding action_from_record
loads_status r s valid h =
    ground (arith, str_eq_iff r.status (status_value s), status_of_value-status_value s)

-- What `view` shows after the row of `a` has been updated.
shows_update :
    (a : GovernedAction) (w v : World) (r : GovernedActionRecord) (i : Uuid)
    → row_of w a.id ≡ some r
    → is_valid_record r ≡ true
    → v.database.governed_actions
      ≡ update_where (λ x. x.id == a.id) (apply_transition a) w.database.governed_actions
    → view v i
      ≡ (if a.id == i then ok (action_with_status (apply_transition a r) a.status) else view w i)
shows_update a w v r i h valid e =
    let moved =
      find-update a.id i (apply_transition a) w.database.governed_actions
        (λ x. unfold apply_transition in refl) in
    let status = loaded a r valid in
    elim (Bool-cases (a.id == i)) [ inl here ↦ ground arith | inr elsewhere ↦ ground arith ]

-- `view` shows the same after the row of `a` has been updated, if it is not valid.
hides_update :
    (a : GovernedAction) (w v : World) (r : GovernedActionRecord) (i : Uuid)
    → row_of w a.id ≡ some r
    → is_valid_record r ≡ false
    → v.database.governed_actions
      ≡ update_where (λ x. x.id == a.id) (apply_transition a) w.database.governed_actions
    → view v i ≡ view w i
hides_update a w v r i h invalid e =
    let moved =
      find-update a.id i (apply_transition a) w.database.governed_actions
        (λ x. unfold apply_transition in refl) in
    let before = unreadable r invalid in
    let after = unreadable (apply_transition a r) (valid-apply_transition a r ∙ invalid) in
    elim (Bool-cases (a.id == i)) [ inl here ↦ ground arith | inr elsewhere ↦ ground arith ]

proposal_kept :
    (a : GovernedAction) (r : GovernedActionRecord) (s : ActionStatus)
    → SameProposal (action_with_status r s) a
    → SameProposal (action_with_status r s) (action_with_status (apply_transition a r) a.status)
unfolding apply_transition
proposal_kept a r s p = record {
  same_id = refl;
  same_case_id = refl;
  same_review_id = refl;
  same_tenant_id = refl;
  same_tool_name = refl;
  same_arguments = refl;
  same_proposer_id = refl;
  same_idempotency_key = refl;
  same_created_at = refl;
}

transition_kept :
    (a : GovernedAction) (r : GovernedActionRecord)
    → SameTransition a (action_with_status (apply_transition a r) a.status)
unfolding apply_transition
transition_kept a r = record {
  same_status = refl;
  same_approver_id = refl;
  same_approval_comment = refl;
  same_execution_receipt = refl;
  same_decided_at = refl;
  same_executed_at = refl;
}

module _ (a : GovernedAction) (e : AuditEventRecord) (w : World) (r : GovernedActionRecord)
    (s : ActionStatus) where
  committed :
      row_of w a.id ≡ some r
      → str_eq r.status (status_value s) ≡ true
      → Saved view a s w (commit_transition a e w)
  unfolding commit_transition
  committed h same = elim (Bool-cases (admits_event w.database e)) [
    | inl admitted ↦ elim (Bool-cases (is_valid_record r)) [
      | inl valid ↦
          stored (action_with_status r s) (action_with_status (apply_transition a r) a.status)
            (ground (arith, loads_status r s valid same)) refl (proposal_kept a r s)
            (transition_kept a r) (ground arith)
            (λ i. shows_update a w (commit_transition a e w).1 r i h valid (ground arith))
      | inr invalid ↦
          let hidden = unreadable r invalid in
          unseen value_error (ground arith)
            (λ i. hides_update a w (commit_transition a e w).1 r i h invalid (ground arith))
    ]
    | inr unfit ↦ refused integrity_error (ground arith) (λ i. ground arith)
  ]

-- The state in which `save_transition` commits.
abbrev prepared : World → World
prepared w = (uuid4 (now_utc w).1).1

commits :
    (a : GovernedAction) (r : GovernedActionRecord) (ev : AuditEventCreate) (s : ActionStatus)
    (w : World)
    → row_of w a.id ≡ some r
    → str_eq r.status (status_value s) ≡ true
    → save_transition a ev s w
      ≡ commit_transition a
          (audit_record ev
            (w.host.random_uuids w.host.uuids_drawn)
            (w.host.clock w.host.clock_reads))
          (prepared w)
unfolding save_transition
commits a r ev s w h same = ground arith

refuses_missing :
    (a : GovernedAction) (ev : AuditEventCreate) (s : ActionStatus) (w : World)
    → row_of w a.id ≡ none
    → save_transition a ev s w ≡ (err action_not_found, w)
unfolding save_transition
refuses_missing a ev s w h = ground arith

refuses_other_status :
    (a : GovernedAction) (r : GovernedActionRecord) (ev : AuditEventCreate) (s : ActionStatus)
    (w : World)
    → row_of w a.id ≡ some r
    → str_eq r.status (status_value s) ≡ false
    → save_transition a ev s w ≡ (err transition_conflict, w)
unfolding save_transition
refuses_other_status a r ev s w h other = ground arith

pub save_lem :
    (a : GovernedAction) (ev : AuditEventCreate) (s : ActionStatus) (w : World)
    → Saved view a s w (save_transition a ev s w)
save_lem a ev s w = elim (Option-cases (row_of w a.id)) [
  | inl missing ↦ rw (refuses_missing a ev s w missing) (refused action_not_found refl (λ i. refl))
  | inr (r, h) ↦ elim (Bool-cases (str_eq r.status (status_value s))) [
    | inl same ↦ rw (commits a r ev s w h same) (relocate (committed a _ (prepared w) r s h same))
    | inr other ↦
        rw (refuses_other_status a r ev s w h other) (refused transition_conflict refl (λ i. refl))
  ]
]
  where
    relocate :
        {out : Result GovernedAction × World}
        → Saved view a s (prepared w) out
        → Saved view a s w out
    relocate (refused e p q) = refused e p q
    relocate (unseen e p q) = unseen e p q
    relocate (stored old b p q m n o k) = stored old b p q m n o k

pub save_conflict :
    (a old : GovernedAction) (ev : AuditEventCreate) (s : ActionStatus) (w : World)
    → view w a.id ≡ ok old
    → old.status ≢ s
    → save_transition a ev s w ≡ (err transition_conflict, w)
save_conflict a old ev s w h ne = elim (Option-cases (row_of w a.id)) [
  | inl missing ↦ cc
  | inr (r, e) ↦ elim (Bool-cases (str_eq r.status (status_value s))) [
    | inl same ↦ elim (Bool-cases (is_valid_record r)) [
      | inl valid ↦ absurd (ne (ground (arith, loads_status r s valid same)))
      | inr invalid ↦ let hidden = unreadable r invalid in absurd (ground arith)
    ]
    | inr other ↦ refuses_other_status a r ev s w e other
  ]
]

-- A row is found by its identifier, and the action that is read from it has the same one.
loaded_id :
    (r : GovernedActionRecord) (a : GovernedAction) → action_from_record r ≡ ok a → a.id ≡ r.id
unfolding action_from_record
loaded_id r a h = ground arith

pub sql-IsKeyed : (w : World) → IsKeyed view w
sql-IsKeyed w i a h = elim (Option-cases (row_of w i)) [
  | inl missing ↦ absurd (ground arith)
  | inr (r, e) ↦
      loaded_id r a (ground arith) ∙ found_key (λ x. x.id) i r w.database.governed_actions e
]

-- The contract, with the view that it speaks of.
unfoldable pub sql_contract : (others : World → World) → IsLawful (sql_repository others)
unfolding sql_repository
sql_contract others = record {
  view = view;
  view_of_host = λ h i w. refl;
  get_lem = get-view;
  save_lem = save_lem;
  save_conflict = save_conflict;
}

-- The PostgreSQL repository fulfils the contract of an action repository, whatever the other
-- transactions are that commit during `create_proposal`.
pub sql_repository-IsLawful : (others : World → World) → IsLawful (sql_repository others)
sql_repository-IsLawful = sql_contract
