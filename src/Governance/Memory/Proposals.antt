-- ===== src/Governance/Memory/Proposals.antt =====
-- `InMemoryActionRepository.create_proposal`: a failed audit undoes the proposal, and a key that is
-- taken returns its action.
use multi_agent_system.Base.{
  ℕ, String, Uuid, nat_eq, pair_eq, Option, Option-cases, none, some, true, false, ◌≡◌, refl, arith,
  inl, inr, str_eq_iff,
}
use multi_agent_system.Base.Dict.{get-put, get-pop-put}
use multi_agent_system.Exec.{Result-cases, Error, ok, err}
use multi_agent_system.Persistence.{World}
use multi_agent_system.Schemas.{GovernedAction, AuditEventCreate, OutboxMessageCreate}
use multi_agent_system.Governance.Interface.{AuditWriter}
use multi_agent_system.Governance.Memory.{
  actions_of, id_of, create_proposal, create_or_return, insert_with_audit, insert_action,
  remove_action, write_audit, return_existing,
}
use multi_agent_system.Governance.Memory.Lawful.{IsSeparate}

-- If the audit writer raises, then the repository holds exactly what it held before: the same
-- action under each identifier and the same identifier under each key, provided that neither the
-- identifier nor the key of the new action was taken.
pub create_proposal_rollback :
    (write : AuditWriter) (a : GovernedAction) (ev : AuditEventCreate)
    (message : OutboxMessageCreate) (w : World) (e : Error) (i : Uuid) (key : String × ℕ)
    → IsSeparate (some write)
    → actions_of w a.id ≡ none
    → id_of w (a.tenant_id, a.idempotency_key) ≡ none
    → (create_proposal (some write) a ev message w).0 ≡ err e
    → (actions_of (create_proposal (some write) a ev message w).1 i ≡ actions_of w i)
      × (id_of (create_proposal (some write) a ev message w).1 key ≡ id_of w key)
unfolding create_proposal create_or_return insert_with_audit insert_action remove_action write_audit
create_proposal_rollback write a ev message w e i key separate fresh free raised =
    elim (Result-cases (write ev (insert_action a w)).0) [
      | inl (x, h) ↦ absurd (ground arith)
      | inr (x, h) ↦
          let own : String × ℕ = (a.tenant_id, a.idempotency_key) in
          let same = separate.apart write ev (insert_action a w) refl in
          let actions = get-pop-put w.action_store.actions a.id i a fresh in
          let keys = get-pop-put w.action_store.idempotency own key a.id free in
          (ground arith, ground arith)
    ]

-- What has been stored when `create_proposal` reports a new action.
inserted :
    (writer : Option AuditWriter) (a b : GovernedAction) (ev : AuditEventCreate)
    (message : OutboxMessageCreate) (w : World)
    → IsSeparate writer
    → (create_proposal writer a ev message w).0 ≡ ok (b, true)
    → (create_proposal writer a ev message w).1.action_store ≡ (insert_action a w).action_store
unfolding create_proposal create_or_return insert_with_audit write_audit return_existing
inserted writer a b ev message w separate created =
    elim (Option-cases (id_of w (a.tenant_id, a.idempotency_key))) [
      | inr (taken, h) ↦ elim (Option-cases (actions_of w taken)) [
        | inl missing ↦ absurd (ground arith)
        | inr (old, there) ↦ absurd (ground arith)
      ]
      | inl free ↦ of_writer writer separate created free
    ]
  where
    of_writer :
        (writer : Option AuditWriter)
        → IsSeparate writer
        → (create_proposal writer a ev message w).0 ≡ ok (b, true)
        → id_of w (a.tenant_id, a.idempotency_key) ≡ none
        → (create_proposal writer a ev message w).1.action_store ≡ (insert_action a w).action_store
    of_writer none separate created free = ground arith
    of_writer (some write) separate created free =
        let same = separate.apart write ev (insert_action a w) refl in
        elim (Result-cases (write ev (insert_action a w)).0) [
          | inl (x, h) ↦ ground arith
          | inr (x, h) ↦ absurd (ground arith)
        ]

-- A key is used once: after a proposal has been created, each proposal with the same tenant and key
-- returns the action created and changes nothing.
pub create_proposal_replay :
    (writer writer' : Option AuditWriter) (a again b : GovernedAction) (ev ev' : AuditEventCreate)
    (message message' : OutboxMessageCreate) (w : World)
    → IsSeparate writer
    → again.tenant_id ≡ a.tenant_id
    → again.idempotency_key ≡ a.idempotency_key
    → (create_proposal writer a ev message w).0 ≡ ok (b, true)
    → create_proposal writer' again ev' message' (create_proposal writer a ev message w).1
      ≡ (ok (a, false), (create_proposal writer a ev message w).1)
unfolding create_proposal create_or_return insert_action return_existing
create_proposal_replay writer writer' a again b ev ev' message message' w separate tenant key
      created =
    let after = (create_proposal writer a ev message w).1 in
    let own : String × ℕ = (a.tenant_id, a.idempotency_key) in
    let self = (str_eq_iff a.tenant_id a.tenant_id).1 refl in
    let store = inserted writer a b ev message w separate created in
    let known = get-put w.action_store.idempotency own own a.id in
    let held = get-put w.action_store.actions a.id a.id a in
    let by_key : id_of after own ≡ some a.id = ground arith in
    let by_id : actions_of after a.id ≡ some a = ground arith in ground arith
