-- ===== src/Governance/Memory/Lawful.antt =====
-- The in-memory repository fulfils the contract, if its audit writer leaves the actions alone.
use multi_agent_system.Base.{
  Uuid, nat_eq, Option, none, some, true, false, ◌≡◌, ◌≢◌, refl, arith, Option-cases, Bool-cases,
  inl, inr,
}
use multi_agent_system.Base.Dict
use multi_agent_system.Base.Dict.{dict_laws, get-put}
use multi_agent_system.Exec.{Result, Result-cases, ok, err, action_not_found, transition_conflict}
use multi_agent_system.Persistence.{World}
use multi_agent_system.Schemas.{GovernedAction, ActionStatus, AuditEventCreate, same_status}
use multi_agent_system.Governance.Interface.{AuditWriter}
use multi_agent_system.Governance.Laws.{View, Saved, refused, stored, IsLawful}
use multi_agent_system.Governance.Memory.{
  actions_of, get, save_transition, in_memory_repository, replace_with_audit, replace_action,
}

-- The writer that the container passes appends to the case repository only.
pub record IsSeparate (writer : Option AuditWriter) : Type 0 where
  pub apart :
      (write : AuditWriter) (ev : AuditEventCreate) (w : World)
      → writer ≡ some write
      → (write ev w).1.action_store ≡ w.action_store

abbrev pub found : Option GovernedAction → Result GovernedAction
found none = err action_not_found
found (some a) = ok a

abbrev pub view : View
view w i = found (actions_of w i)

get-view : (i : Uuid) (w : World) → get i w ≡ (view w i, w)
unfolding get
get-view i w = ground arith

same_status_iff : (s t : ActionStatus) → same_status s t ≡ true → s ≡ t
same_status_iff s t h = ground arith

module _ (a : GovernedAction) (ev : AuditEventCreate) (w : World) (old : GovernedAction) where
  -- A write, and on failure of the writer the write back.
  replaced :
      (writer : Option AuditWriter)
      → IsSeparate writer
      → actions_of w a.id ≡ some old
      → Saved view a old.status w (replace_with_audit writer old a ev w)
  unfolding replace_with_audit
  replaced none s h =
      stored old a (ground arith) refl (λ p. p) (ground arith) refl
        (λ i. ground (arith, get-put w.action_store.actions a.id i a))
  replaced (some write) s h = elim (Result-cases (write ev (replace_action a.id a w)).0) [
    | inl (x, e) ↦
        stored old a (ground arith) refl (λ p. p) (ground arith) (ground arith)
          (λ i. ground (
            arith,
            s.apart write ev (replace_action a.id a w) refl,
            get-put w.action_store.actions a.id i a,
          ))
    | inr (x, e) ↦ refused x (ground arith) (λ i. ground (
      arith,
      s.apart write ev (replace_action a.id a w) refl,
      get-put w.action_store.actions a.id i a,
      get-put (Dict.put w.action_store.actions a.id a) a.id i old,
    ))
  ]

saves_by_replacing :
    (writer : Option AuditWriter) (a old : GovernedAction) (ev : AuditEventCreate)
    (wanted : ActionStatus) (w : World)
    → actions_of w a.id ≡ some old
    → same_status old.status wanted ≡ true
    → save_transition writer a ev wanted w ≡ replace_with_audit writer old a ev w
unfolding save_transition
saves_by_replacing writer a old ev wanted w h same = ground arith

refuses_missing :
    (writer : Option AuditWriter) (a : GovernedAction) (ev : AuditEventCreate)
    (wanted : ActionStatus) (w : World)
    → actions_of w a.id ≡ none
    → save_transition writer a ev wanted w ≡ (err action_not_found, w)
unfolding save_transition
refuses_missing writer a ev wanted w h = ground arith

refuses_other_status :
    (writer : Option AuditWriter) (a old : GovernedAction) (ev : AuditEventCreate)
    (wanted : ActionStatus) (w : World)
    → actions_of w a.id ≡ some old
    → same_status old.status wanted ≡ false
    → save_transition writer a ev wanted w ≡ (err transition_conflict, w)
unfolding save_transition
refuses_other_status writer a old ev wanted w h other = ground arith

save_lem :
    (writer : Option AuditWriter)
    → IsSeparate writer
    → (a : GovernedAction) (ev : AuditEventCreate) (wanted : ActionStatus) (w : World)
    → Saved view a wanted w (save_transition writer a ev wanted w)
save_lem writer s a ev wanted w = elim (Option-cases (actions_of w a.id)) [
  | inl missing ↦
      rw (refuses_missing writer a ev wanted w missing) (refused action_not_found refl (λ i. refl))
  | inr (old, h) ↦ elim (Bool-cases (same_status old.status wanted)) [
    | inl same ↦
        rw
          (
            saves_by_replacing writer a old ev wanted w h same,
            ← same_status_iff old.status wanted same,
          )
          (replaced a ev w old writer s h)
    | inr other ↦
        rw (refuses_other_status writer a old ev wanted w h other)
          (refused transition_conflict refl (λ i. refl))
  ]
]

save_conflict :
    (writer : Option AuditWriter) (a old : GovernedAction) (ev : AuditEventCreate)
    (wanted : ActionStatus) (w : World)
    → view w a.id ≡ ok old
    → old.status ≢ wanted
    → save_transition writer a ev wanted w ≡ (err transition_conflict, w)
unfolding save_transition
save_conflict writer a old ev wanted w h ne = ground arith

-- The in-memory repository, without an audit writer or with one that leaves the actions alone
-- whether it returns or raises, fulfils the contract of an action repository.
pub in_memory_repository-IsLawful :
    (writer : Option AuditWriter) → IsSeparate writer → IsLawful (in_memory_repository writer)
unfolding in_memory_repository
in_memory_repository-IsLawful writer s = record {
  view = view;
  view_of_host = λ h i w. refl;
  get_lem = get-view;
  save_lem = save_lem writer s;
  save_conflict = save_conflict writer;
}
