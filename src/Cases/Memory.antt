-- ===== src/Cases/Memory.antt =====
-- packages/persistence/repositories.py: `InMemoryCaseRepository`. Each method holds the lock for as
-- long as it writes, so it is one step.
use multi_agent_system.Base.{List, [], ◌∷◌, ◌++◌, Option, none, some, Uuid, DateTime, nat_eq}
use multi_agent_system.Base.Dict
use multi_agent_system.Exec.{
  Exec, pure, gets, or_raise, modify, ◌>>=◌, ◌>>◌, case_not_found, review_not_found,
}
use multi_agent_system.Persistence.{World, CaseStore, uuid4, now_utc}
use multi_agent_system.Schemas.{
  SupplierCase, CaseStatus, ReviewResult, AuditEvent, AuditEventCreate,
}

abbrev pub with_store : (CaseStore → CaseStore) → World → World
with_store f w = record w { case_store = f w.case_store }

-- `d.get(key, [])`
abbrev pub or_empty : {A : Type 0} → Option (List A) → List A
or_empty none = []
or_empty (some xs) = xs

-- `xs[-1]`, if there is one.
abbrev pub last : List ReviewResult → Option ReviewResult
last [] = none
last (x ∷ xs) = elim (last xs) [ none ↦ some x | some y ↦ some y ]

unfoldable pub create : SupplierCase → Exec World SupplierCase
create c = do modify (with_store (λ s. record s { cases = Dict.put s.cases c.id c })); pure c

unfoldable pub get : Uuid → Exec World SupplierCase
get case_id = do or_raise (← gets (λ w. Dict.get w.case_store.cases case_id)) case_not_found

unfoldable pub set_status : Uuid → CaseStatus → Exec World SupplierCase
unfolding get
set_status case_id status = do
  current ← get case_id
  now ← now_utc
  let updated = record current { status = status; updated_at = now }
  modify (with_store (λ s. record s { cases = Dict.put s.cases case_id updated }))
  pure updated

-- `self._reviews.setdefault(case_id, []).append(result)` and the index by identifier.
unfoldable pub add_review : ReviewResult → CaseStore → CaseStore
add_review result s = record s {
  reviews =
      Dict.put s.reviews result.case_id
        (or_empty (Dict.get s.reviews result.case_id) ++ result ∷ []);
  reviews_by_id = Dict.put s.reviews_by_id result.review_id result;
}

unfoldable pub save_unless : Option ReviewResult → ReviewResult → Exec World ReviewResult
unfolding add_review
save_unless (some existing) result = pure existing
save_unless none result = do modify (with_store (add_review result)); pure result

unfoldable pub save_review : ReviewResult → Exec World ReviewResult
unfolding save_unless
save_review result = do
  save_unless (← gets (λ w. Dict.get w.case_store.reviews_by_id result.review_id)) result

unfoldable pub get_latest_review : Uuid → Exec World ReviewResult
unfolding get
get_latest_review case_id = do
  get case_id
  reviews ← gets (λ w. or_empty (Dict.get w.case_store.reviews case_id))
  or_raise (last reviews) review_not_found

unfoldable pub get_review : Uuid → Exec World ReviewResult
get_review review_id = do
  or_raise (← gets (λ w. Dict.get w.case_store.reviews_by_id review_id)) review_not_found

unfoldable pub stored_event : AuditEventCreate → Uuid → DateTime → AuditEvent
stored_event e i now = record { event = e; id = i; created_at = now }

unfoldable pub add_event : AuditEvent → CaseStore → CaseStore
add_event e s = record s {
  events = Dict.put s.events e.case_id (or_empty (Dict.get s.events e.case_id) ++ e ∷ []);
}

unfoldable pub append_audit_event : AuditEventCreate → Exec World AuditEvent
unfolding get stored_event add_event
append_audit_event e = do
  get e.case_id
  i ← uuid4
  now ← now_utc
  let stored = stored_event e i now
  modify (with_store (add_event stored))
  pure stored

unfoldable pub list_audit_events : Uuid → Exec World (List AuditEvent)
unfolding get
list_audit_events case_id = do
  get case_id
  gets (λ w. or_empty (Dict.get w.case_store.events case_id))
