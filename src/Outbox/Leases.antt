-- ===== src/Outbox/Leases.antt =====
-- What `mark_published` and `record_failure` require, and what the three operations keep.
use multi_agent_system.Base.{
  ℕ, ◌-◌, String, List, [], ◌∷◌, Option, none, some, Bool, true, false, ◌≡◌, sym, arith, Uuid,
  DateTime, ◌==◌, leb, any, find_first, update_where, All, All-take, All-select,
  All-update_where_of, All-zip, Bool-cases, inl, inr,
}
use multi_agent_system.Base.Keys.{
  IsDistinct, IsDistinct-update_where, IsDistinct-IsFound, IsDistinct-own,
}
use multi_agent_system.Exec.{err, lease_lost}
use multi_agent_system.Persistence.{World, OutboxMessageRecord}
use multi_agent_system.Schemas.{DeliveryResult}
use multi_agent_system.Outbox.Repository.{
  TimeDelta, message_of, text_is, claim_batch, claimed_rows, lease, update_rows, mark_published,
  publish_once, publish_leased, require_lease, record_failure, failed, published, write_published,
  with_messages, is_claimable,
}
use multi_agent_system.Outbox.Writes.{
  Marked, Failed, marks, fails, refuses, repeats, publishes, records,
}
use multi_agent_system.Outbox.Rows.{
  IsSound, IsTable, lease_id, lease-IsSound, claimable_pending, published-IsSound, failed-IsSound,
  find-IsSound, leased_open, published_id, failed_id,
}
use multi_agent_system.Outbox.Sorting.{All-sort_rows}
use multi_agent_system.Outbox.Claims.{messages}

-- A worker that does not hold the lease of a pending message is refused, by `mark_published` and by
-- `record_failure` alike, and changes nothing.
pub lease_required :
    (i : Uuid) (worker error_type : String) (d : DeliveryResult) (retry_at now : DateTime)
    (max_attempts : ℕ) (w : World) (r : OutboxMessageRecord)
    → message_of w i ≡ some r
    → r.published_at ≡ none
    → text_is r.locked_by worker ≡ false
    → (mark_published i worker d now w ≡ (err lease_lost, w))
      × (record_failure i worker error_type retry_at max_attempts now w ≡ (err lease_lost, w))
unfolding mark_published record_failure publish_once publish_leased require_lease
lease_required i worker error_type d retry_at now max_attempts w r found pending lost =
    (ground arith, ground arith)

-- Of the rows with some identifier that are in the table, the one that is picked is claimable.
any-claimable :
    (i : Uuid) (now stale_before : DateTime) (found : Option OutboxMessageRecord)
    (picked : List OutboxMessageRecord)
    → All
        (λ c. ((c.id == i) ≡ true → found ≡ some c) × (is_claimable now stale_before c ≡ true))
        picked
    → any (λ c. c.id == i) picked ≡ true
    → (r : OutboxMessageRecord) → found ≡ some r
    → is_claimable now stale_before r ≡ true
any-claimable i now stale_before found [] h e r k = ground arith
any-claimable i now stale_before found (c ∷ picked) h e r k = elim (Bool-cases (c.id == i)) [
  | inl same ↦ let first = h.0.0 same in let claimable = h.0.1 in ground arith
  | inr other ↦ any-claimable i now stale_before found picked h.1 (ground arith) r k
]

module _ (held : Uuid → Bool) (batch_size : ℕ) (now stale_before : DateTime) where
  -- What `any-claimable` wants, of the rows that a claim picks.
  picked_found :
      (i : Uuid) (rows : List OutboxMessageRecord)
      → IsDistinct (λ r. r.id) rows
      → All
          (λ c.
            ((c.id == i) ≡ true → find_first (λ s. s.id == i) rows ≡ some c)
            × (is_claimable now stale_before c ≡ true))
          (claimed_rows held batch_size now stale_before rows)
  unfolding claimed_rows
  picked_found i rows distinct = All-take _ batch_size _ (
      All-sort_rows _ _ (
        All-select _ _ _ (λ c found e. (found, ground arith)) rows
          (IsDistinct-IsFound _ i rows distinct)))

  pub picked_claimable :
      (rows : List OutboxMessageRecord)
      → IsDistinct (λ r. r.id) rows
      → (r : OutboxMessageRecord) → find_first (λ s. s.id == r.id) rows ≡ some r
      → any (λ c. c.id == r.id) (claimed_rows held batch_size now stale_before rows) ≡ true
      → is_claimable now stale_before r ≡ true
  picked_claimable rows distinct r here e =
      any-claimable r.id now stale_before _ _ (picked_found r.id rows distinct) e r here

-- What one transaction on the rows of the outbox keeps: rows that `p` selects are written by `f`.
update-IsSound :
    (p : OutboxMessageRecord → Bool) (f : OutboxMessageRecord → OutboxMessageRecord)
    → ((r : OutboxMessageRecord) → (f r).id ≡ r.id)
    → (rows : List OutboxMessageRecord) → All IsSound rows × IsDistinct (λ r. r.id) rows
    → ((r : OutboxMessageRecord)
        → find_first (λ s. s.id == r.id) rows ≡ some r
        → IsSound r
        → p r ≡ true
        → IsSound (f r))
    → All IsSound (update_where p f rows) × IsDistinct (λ r. r.id) (update_where p f rows)
update-IsSound p f keeps rows h step = (
  All-update_where_of _ _ p f (λ r both e. step r both.1 both.0 e) (λ r both e. both.0) rows
      (All-zip _ _ rows h.0 (IsDistinct-own _ rows h.1)),
  IsDistinct-update_where _ p f keeps rows h.1,
)

pub claim_batch-IsTable :
    (held : Uuid → Bool) (worker : String) (batch_size : ℕ) (lock_timeout : TimeDelta)
    (now : DateTime) (w : World)
    → IsTable w
    → IsTable (claim_batch held worker batch_size lock_timeout now w).1
unfolding claim_batch with_messages update_rows
claim_batch-IsTable held worker batch_size lock_timeout now w h =
    elim (Bool-cases (leb lock_timeout now)) [
      | inl e ↦ rw e (
          update-IsSound _ (lease worker now) (lease_id worker now) (messages w) h
            (λ r here sound picked.
              let open_row =
                picked_claimable held batch_size now (now - lock_timeout) (messages w) h.1 r here
                  picked in
              let (live, undelivered) = claimable_pending now (now - lock_timeout) r open_row in
              lease-IsSound worker now r live undelivered))
      | inr e ↦ rw e h
    ]

pub same_row :
    (i : Uuid) (w : World) (r s : OutboxMessageRecord)
    → message_of w i ≡ some r
    → r.id ≡ i
    → find_first (λ x. x.id == s.id) (messages w) ≡ some s
    → (s.id == r.id) ≡ true
    → s ≡ r
same_row i w r s h k e m =
    let eq : s.id ≡ i = ground arith in
    let here : find_first (λ x. x.id == i) (messages w) ≡ some s = rw (sym eq) e in ground arith

pub mark_published-IsTable :
    (i : Uuid) (worker : String) (d : DeliveryResult) (now : DateTime) (w : World)
    → IsTable w
    → IsTable (mark_published i worker d now w).1
unfolding write_published
mark_published-IsTable i worker d now w h = of_case (marks i worker d now w)
  where
    of_case : Marked i worker d now w → IsTable (mark_published i worker d now w).1
    of_case (refuses e same) = rw same h
    of_case (repeats r here again same) = rw same h
    of_case (publishes r a reference here pending leased ref after) =
        let (sound, own) = find-IsSound i (messages w) r h.0 here in
        let (live, undelivered) = leased_open worker r sound leased in
        rw after (
          update-IsSound _ (published d now) (published_id d now) (messages w) h
            (λ s found sound_s picked.
              let same = same_row i w r s here own found picked in
              published-IsSound d now s (ground arith)))

pub record_failure-IsTable :
    (i : Uuid) (worker error_type : String) (retry_at : DateTime) (max_attempts : ℕ)
    (now : DateTime) (w : World)
    → IsTable w
    → IsTable (record_failure i worker error_type retry_at max_attempts now w).1
unfolding with_messages
record_failure-IsTable i worker error_type retry_at max_attempts now w h =
    of_case (fails i worker error_type retry_at max_attempts now w)
  where
    of_case :
        Failed i worker error_type retry_at max_attempts now w
        → IsTable (record_failure i worker error_type retry_at max_attempts now w).1
    of_case (refuses e same) = rw same h
    of_case (records r here leased after) =
        let (sound, own) = find-IsSound i (messages w) r h.0 here in
        let (live, undelivered) = leased_open worker r sound leased in
        rw after (
          update-IsSound _ (failed error_type retry_at max_attempts now)
            (failed_id error_type retry_at now max_attempts) (messages w) h
            (λ s found sound_s picked.
              let same = same_row i w r s here own found picked in
              failed-IsSound error_type retry_at now max_attempts s (ground arith) (ground arith)))
