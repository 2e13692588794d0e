-- ===== src/Outbox/Steps.antt =====
-- The outbox under any number of workers: a step is one transaction of one of them.
use multi_agent_system.Base.{
  ℕ, ◌-◌, String, none, some, Bool, true, false, ◌||◌, ◌≡◌, arith, inl, inr, Uuid, DateTime, ◌==◌,
  leb, is_some, any, find_first, Bool-cases,
}
use multi_agent_system.Base.Keys.{found-update_where}
use multi_agent_system.Persistence.{World, OutboxMessageRecord}
use multi_agent_system.Schemas.{DeliveryResult}
use multi_agent_system.Outbox.Repository.{
  TimeDelta, message_of, claim_batch, claimed_rows, is_claimable, update_rows, lease,
  mark_published, record_failure, write_published, published, failed, with_messages,
}
use multi_agent_system.Outbox.Claims.{messages}
use multi_agent_system.Outbox.Rows.{
  IsTable, find-IsSound, leased_open, lease_id, published_id, failed_id,
}
use multi_agent_system.Outbox.Writes.{
  Marked, Failed, marks, fails, refuses, repeats, publishes, records,
}
use multi_agent_system.Outbox.Leases.{
  claim_batch-IsTable, mark_published-IsTable, record_failure-IsTable, picked_claimable, same_row,
}

infix 20 ◌⇒◌
pub data ◌⇒◌ : World → World → Type 0 where
  claims :
      {w : World} (held : Uuid → Bool) (worker : String) (batch_size : ℕ) (lock_timeout : TimeDelta)
      (now : DateTime)
      → w ⇒ (claim_batch held worker batch_size lock_timeout now w).1
  marks_published :
      {w : World} (i : Uuid) (worker : String) (d : DeliveryResult) (now : DateTime)
      → w ⇒ (mark_published i worker d now w).1
  records_failure :
      {w : World} (i : Uuid) (worker error_type : String) (retry_at : DateTime) (max_attempts : ℕ)
      (now : DateTime)
      → w ⇒ (record_failure i worker error_type retry_at max_attempts now w).1

infix 20 ◌⇒*◌
infixr 25 ◌then◌
pub data ◌⇒*◌ : World → World → Type 0 where
  done : {w : World} → w ⇒* w
  ◌then◌ : {w w' w'' : World} → w ⇒ w' → w' ⇒* w'' → w ⇒* w''

step-IsTable : {w w' : World} → w ⇒ w' → IsTable w → IsTable w'
step-IsTable (claims held worker batch_size lock_timeout now) h =
    claim_batch-IsTable held worker batch_size lock_timeout now _ h
step-IsTable (marks_published i worker d now) h = mark_published-IsTable i worker d now _ h
step-IsTable (records_failure i worker error_type retry_at max_attempts now) h =
    record_failure-IsTable i worker error_type retry_at max_attempts now _ h

-- However the workers' transactions interleave, the rows keep distinct identifiers, and each row is
-- locked by a worker exactly when it is locked at a time, is not locked when it is published or
-- dead-lettered, and never is both published and dead-lettered.
pub steps-IsTable : {w w' : World} → w ⇒* w' → IsTable w → IsTable w'
steps-IsTable done h = h
steps-IsTable (s then rest) h = steps-IsTable rest (step-IsTable s h)

abbrev pub is_finished : OutboxMessageRecord → Bool
is_finished r = is_some r.published_at || is_some r.dead_lettered_at

module _ (i : Uuid) (r : OutboxMessageRecord) (w : World) (h : IsTable w)
    (found : message_of w i ≡ some r) (finished : is_finished r ≡ true) where
  own_id : r.id ≡ i
  own_id = (find-IsSound i (messages w) r h.0 found).1

  by_own_id : find_first (λ s. s.id == r.id) (messages w) ≡ some r
  by_own_id = simp own_id found

  claim_keeps :
      (held : Uuid → Bool) (worker : String) (batch_size : ℕ) (lock_timeout : TimeDelta)
      (now : DateTime)
      → message_of (claim_batch held worker batch_size lock_timeout now w).1 i ≡ some r
  unfolding claim_batch with_messages update_rows is_claimable
  claim_keeps held worker batch_size lock_timeout now = elim (Bool-cases (leb lock_timeout now)) [
    | inl e ↦ rw e (
        found-update_where _ _ (lease worker now) (lease_id worker now) i r (messages w) found
          (elim (Bool-cases (
            any (λ c. c.id == r.id)
              (claimed_rows held batch_size now (now - lock_timeout) (messages w)))) [
                | inl picked ↦
                    let open_row =
                      picked_claimable held batch_size now (now - lock_timeout) (messages w) h.1 r
                        by_own_id picked in
                    ground arith
                | inr left ↦ left
              ]))
    | inr e ↦ rw e found
  ]

  -- A row that a step selects by an identifier is not this one, if it is still open.
  another_row :
      (s : OutboxMessageRecord) (j : Uuid)
      → message_of w j ≡ some s
      → (s.published_at ≡ none) × (s.dead_lettered_at ≡ none)
      → (r.id == s.id) ≡ false
  another_row s j here open_row = elim (Bool-cases (r.id == s.id)) [
    | inl e ↦
        let own = (find-IsSound j (messages w) s h.0 here).1 in
        let same = same_row j w s r here own by_own_id e in
        let live = open_row.0 in let undelivered = open_row.1 in ground arith
    | inr e ↦ e
  ]

  mark_keeps :
      (j : Uuid) (worker : String) (d : DeliveryResult) (now : DateTime)
      → message_of (mark_published j worker d now w).1 i ≡ some r
  unfolding write_published
  mark_keeps j worker d now = of_case (marks j worker d now w)
    where
      of_case : Marked j worker d now w → message_of (mark_published j worker d now w).1 i ≡ some r
      of_case (refuses e same) = rw same found
      of_case (repeats s here again same) = rw same found
      of_case (publishes s a reference here pending leased ref after) =
          let open_row = leased_open worker s (find-IsSound j (messages w) s h.0 here).0 leased in
          rw after (
            found-update_where _ _ (published d now) (published_id d now) i r (messages w) found
              (another_row s j here open_row))

  failure_keeps :
      (j : Uuid) (worker error_type : String) (retry_at : DateTime) (max_attempts : ℕ)
      (now : DateTime)
      → message_of (record_failure j worker error_type retry_at max_attempts now w).1 i ≡ some r
  unfolding with_messages
  failure_keeps j worker error_type retry_at max_attempts now =
      of_case (fails j worker error_type retry_at max_attempts now w)
    where
      of_case :
          Failed j worker error_type retry_at max_attempts now w
          → message_of (record_failure j worker error_type retry_at max_attempts now w).1 i ≡ some r
      of_case (refuses e same) = rw same found
      of_case (records s here leased after) =
          let open_row = leased_open worker s (find-IsSound j (messages w) s h.0 here).0 leased in
          rw after (
            found-update_where _ _ (failed error_type retry_at max_attempts now)
              (failed_id error_type retry_at now max_attempts) i r (messages w) found
              (another_row s j here open_row))

step_keeps :
    (i : Uuid) (r : OutboxMessageRecord) {w w' : World}
    → w ⇒ w'
    → IsTable w
    → message_of w i ≡ some r
    → is_finished r ≡ true
    → message_of w' i ≡ some r
step_keeps i r (claims held worker batch_size lock_timeout now) h found finished =
    claim_keeps i r _ h found finished held worker batch_size lock_timeout now
step_keeps i r (marks_published j worker d now) h found finished =
    mark_keeps i r _ h found finished j worker d now
step_keeps i r (records_failure j worker error_type retry_at max_attempts now) h found finished =
    failure_keeps i r _ h found finished j worker error_type retry_at max_attempts now

-- A message that is published or dead-lettered is final: however the workers' transactions
-- interleave from then on, its row stays exactly as it is.
pub finished_stays :
    (i : Uuid) (r : OutboxMessageRecord) {w w' : World}
    → w ⇒* w'
    → IsTable w
    → message_of w i ≡ some r
    → is_finished r ≡ true
    → message_of w' i ≡ some r
finished_stays i r done h found finished = found
finished_stays i r (s then rest) h found finished =
    finished_stays i r rest (step-IsTable s h) (step_keeps i r s h found finished) finished
