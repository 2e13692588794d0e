-- ===== src/Outbox/Claims.antt =====
-- `claim_batch`: what it leases and how much of it.
use multi_agent_system.Base.{
  ℕ, zero, suc, ◌-◌, ◌≤◌, min, String, List, [], ◌∷◌, map, some, Bool, true, not, ◌&&◌, ◌≡◌, arith,
  Uuid, DateTime, length, take, select, All, All-take, All-select, All-map, All-mono, All-of,
  length-take, length-map,
}
use multi_agent_system.Exec.{ok}
use multi_agent_system.Persistence.{World, OutboxMessageRecord}
use multi_agent_system.Schemas.{OutboxMessage, OutboxStatus}
use multi_agent_system.Outbox.Repository.{
  TimeDelta, comes_before, claim_batch, claimed_rows, is_claimable, lease, update_rows,
  message_from_record, with_messages,
}
use multi_agent_system.Outbox.Sorting.{
  IsOrdered, All-sort_rows, sort_rows-IsOrdered, length-sort_rows,
}

abbrev pub messages : World → List OutboxMessageRecord
messages w = w.database.outbox_messages

module _ (held : Uuid → Bool) (worker : String) (batch_size : ℕ) (lock_timeout : TimeDelta)
    (now : DateTime) (w : World) where
  -- The rows that the call may claim.
  abbrev pub open_rows : List OutboxMessageRecord
  open_rows = select (λ r. is_claimable now (now - lock_timeout) r && not (held r.id)) (messages w)

  abbrev picked : List OutboxMessageRecord
  picked = claimed_rows held batch_size now (now - lock_timeout) (messages w)

  -- A call that succeeds leases the rows that it picks and returns them as leased.
  pub claim_lem :
      (ms : List OutboxMessage)
      → (claim_batch held worker batch_size lock_timeout now w).0 ≡ ok ms
      → (ms ≡ map (λ r. message_from_record (lease worker now r)) picked)
        × (claim_batch held worker batch_size lock_timeout now w).1
          ≡ with_messages (update_rows picked (lease worker now)) w
  unfolding claim_batch
  claim_lem ms h = (ground arith, ground arith)

-- A message as `claim_batch` returns it.
pub record IsLeased (worker : String) (now : DateTime) (m : OutboxMessage) : Type 0 where
  pub pending : m.status ≡ OutboxStatus.pending
  pub owner : m.locked_by ≡ some worker
  pub since : m.locked_at ≡ some now
  pub due : m.available_at ≤ now

-- Each message is available no later than the messages behind it.
abbrev pub IsByAvailability : List OutboxMessage → Type 0
IsByAvailability [] = Unit
IsByAvailability (m ∷ ms) = All (λ n. m.available_at ≤ n.available_at) ms × IsByAvailability ms

claimable-IsLeased :
    (worker : String) (now stale_before : DateTime) (r : OutboxMessageRecord)
    → is_claimable now stale_before r ≡ true
    → IsLeased worker now (message_from_record (lease worker now r))
unfolding is_claimable message_from_record lease
claimable-IsLeased worker now stale_before r h = ground arith

comes_before-le :
    (worker : String) (now : DateTime) (r s : OutboxMessageRecord)
    → comes_before r s ≡ true
    → (message_from_record (lease worker now r)).available_at
      ≤ (message_from_record (lease worker now s)).available_at
unfolding comes_before message_from_record lease
comes_before-le worker now r s h = ground arith

IsOrdered-take :
    (n : ℕ) (rows : List OutboxMessageRecord) → IsOrdered rows → IsOrdered (take n rows)
IsOrdered-take zero rows h = tt
IsOrdered-take (suc n) [] h = tt
IsOrdered-take (suc n) (r ∷ rows) h = (All-take _ n rows h.0, IsOrdered-take n rows h.1)

IsOrdered-messages :
    (worker : String) (now : DateTime) (rows : List OutboxMessageRecord)
    → IsOrdered rows
    → IsByAvailability (map (λ r. message_from_record (lease worker now r)) rows)
IsOrdered-messages worker now [] h = tt
IsOrdered-messages worker now (r ∷ rows) h = (
  All-map _ _ rows (All-mono _ _ (comes_before-le worker now r) rows h.0),
  IsOrdered-messages worker now rows h.1,
)

-- A successful `claim_batch` returns messages that are pending, due and leased to the worker from
-- now on, those available first in front; it takes as many as there are to take, up to the batch
-- size, and no more.
pub claim_batch_ok :
    (held : Uuid → Bool) (worker : String) (batch_size : ℕ) (lock_timeout : TimeDelta)
    (now : DateTime) (w : World) (ms : List OutboxMessage)
    → (claim_batch held worker batch_size lock_timeout now w).0 ≡ ok ms
    → All (IsLeased worker now) ms
      × IsByAvailability ms
      × (length ms ≡ min batch_size (length (open_rows held worker batch_size lock_timeout now w)))
unfolding claimed_rows
claim_batch_ok held worker batch_size lock_timeout now w ms h =
    let (same, after) = claim_lem held worker batch_size lock_timeout now w ms h in
    let open_now = open_rows held worker batch_size lock_timeout now w in
    rw same (
      All-map _ _ _ (
          All-take _ batch_size _ (
            All-sort_rows _ open_now (
              All-select (λ r. Unit {0}) _ _
                (λ r _ e. claimable-IsLeased worker now (now - lock_timeout) r (ground arith))
                (messages w) (All-of _ (λ r. tt) (messages w))))),
      IsOrdered-messages worker now _ (IsOrdered-take batch_size _ (sort_rows-IsOrdered open_now)),
      rw (length-map, length-take, length-sort_rows),
    )
