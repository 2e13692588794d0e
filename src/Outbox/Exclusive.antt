-- ===== src/Outbox/Exclusive.antt =====
-- `claim_batch`: a lease excludes other workers until it runs out.
use multi_agent_system.Base.{
  ℕ, ◌+◌, ◌-◌, ◌≤◌, ◌<◌, String, List, [], ◌∷◌, map, some, Bool, true, false, ◌≡◌, refl, sym, arith,
  ◌∙◌, inl, inr, Bool-cases, Uuid, DateTime, leb, ◌==◌, any, All, All-take, All-select, All-map,
  All-mono, update_where, if◌then◌else◌,
}
use multi_agent_system.Base.Keys.{found_key}
use multi_agent_system.Exec.{ok}
use multi_agent_system.Persistence.{World, OutboxMessageRecord}
use multi_agent_system.Schemas.{OutboxMessage, DeliveryResult}
use multi_agent_system.Outbox.Repository.{
  TimeDelta, claim_batch, claimed_rows, is_claimable, lease, update_rows, message_from_record,
  with_messages, mark_published, record_failure, published, failed, write_published,
}
use multi_agent_system.Outbox.Sorting.{All-sort_rows}
use multi_agent_system.Outbox.Claims.{messages, claim_lem}
use multi_agent_system.Outbox.Rows.{published_id, failed_id}
use multi_agent_system.Outbox.Writes.{
  Marked, Failed, marks, fails, refuses, repeats, publishes, records,
}

abbrev is_among : List OutboxMessage → Uuid → Bool
is_among ms i = any (λ m. m.id == i) ms

any-map :
    (worker : String) (now : DateTime) (i : Uuid) (rows : List OutboxMessageRecord)
    → is_among (map (λ r. message_from_record (lease worker now r)) rows) i
      ≡ any (λ c. c.id == i) rows
unfolding message_from_record lease
any-map worker now i [] = refl
any-map worker now i (r ∷ rows) = ground (arith, any-map worker now i rows)

-- The rows that a claim has returned are locked since that claim.
abbrev AreLocked : (Uuid → Bool) → DateTime → List OutboxMessageRecord → Type 0
AreLocked taken now rows = All (λ r. taken r.id ≡ true → r.locked_at ≡ some now) rows

-- After a claim, a row with one of the picked identifiers has been locked since that claim.
leased_rows :
    (worker : String) (now : DateTime) (picked rows : List OutboxMessageRecord)
    → AreLocked (λ i. any (λ c. c.id == i) picked) now (update_rows picked (lease worker now) rows)
unfolding update_rows lease
leased_rows worker now picked [] = tt
leased_rows worker now picked (r ∷ rows) = ((λ h. ground arith), leased_rows worker now picked rows)

-- A row that is claimable was not locked after `stale_before`.
claimable_unlocked :
    (now stale_before t : DateTime) (r : OutboxMessageRecord)
    → is_claimable now stale_before r ≡ true
    → r.locked_at ≡ some t
    → t ≤ stale_before
unfolding is_claimable
claimable_unlocked now stale_before t r h e = ground arith

-- A row that was locked after `stale_before` is not claimed.
locked_rows_stay :
    (held : Uuid → Bool) (batch_size : ℕ) (now now' stale_before : DateTime) (taken : Uuid → Bool)
    (rows : List OutboxMessageRecord)
    → stale_before < now
    → AreLocked taken now rows
    → All (λ r. taken r.id ≡ false) (claimed_rows held batch_size now' stale_before rows)
unfolding claimed_rows
locked_rows_stay held batch_size now now' stale_before taken rows late locked =
    All-take _ batch_size _ (
      All-sort_rows _ _ (
        All-select _ _ _
          (λ r lock e. elim (Bool-cases (taken r.id)) [
            | inl taken_ ↦ absurd (
                omega
                  (arith, claimable_unlocked now' stale_before now r (ground arith) (lock taken_)))
            | inr fresh ↦ fresh
          ])
          rows locked))

-- A row that is none of these is not selected by the identifiers of these.
not_selected :
    (taken : Uuid → Bool) (i : Uuid) (picked : List OutboxMessageRecord)
    → taken i ≡ true
    → All (λ c. taken c.id ≡ false) picked
    → any (λ c. c.id == i) picked ≡ false
not_selected taken i [] h others = refl
not_selected taken i (c ∷ picked) h others =
    let rest = not_selected taken i picked h others.1 in
    elim (Bool-cases (c.id == i)) [ inl same ↦ absurd (ground arith) | inr apart ↦ ground arith ]

-- An update of other rows leaves these locked.
locked-update_where :
    (taken : Uuid → Bool) (now : DateTime) (p : OutboxMessageRecord → Bool)
    (f : OutboxMessageRecord → OutboxMessageRecord) (rows : List OutboxMessageRecord)
    → ((r : OutboxMessageRecord) → (f r).id ≡ r.id)
    → ((r : OutboxMessageRecord) → taken r.id ≡ true → p r ≡ false)
    → AreLocked taken now rows
    → AreLocked taken now (update_where p f rows)
locked-update_where taken now p f [] keeps others h = tt
locked-update_where taken now p f (r ∷ rows) keeps others h =
    (one, locked-update_where taken now p f rows keeps others h.1)
  where
    one : taken (if p r then f r else r).id ≡ true → (if p r then f r else r).locked_at ≡ some now
    one k = elim (Bool-cases (p r)) [
      | inl selected ↦ let same = keeps r in let other = others r in absurd (ground arith)
      | inr left ↦ let before = h.0 in ground arith
    ]

-- What may happen after a claim at `now` that returned `ms`, while its lease runs: claims of any
-- worker that come less than their own lock timeout after it, and transactions that publish other
-- messages or report their failure.
pub data Meanwhile (ms : List OutboxMessage) (now : DateTime) : World → World → Type 0 where
  done : {w : World} → Meanwhile ms now w w
  claims :
      {w w' : World} (held : Uuid → Bool) (worker : String) (batch_size : ℕ)
      (lock_timeout : TimeDelta) (at : DateTime)
      → at < now + lock_timeout
      → Meanwhile ms now (claim_batch held worker batch_size lock_timeout at w).1 w'
      → Meanwhile ms now w w'
  marks_published :
      {w w' : World} (i : Uuid) (worker : String) (d : DeliveryResult) (at : DateTime)
      → any (λ m. m.id == i) ms ≡ false
      → Meanwhile ms now (mark_published i worker d at w).1 w'
      → Meanwhile ms now w w'
  records_failure :
      {w w' : World} (i : Uuid) (worker error_type : String) (retry_at : DateTime)
      (max_attempts : ℕ) (at : DateTime)
      → any (λ m. m.id == i) ms ≡ false
      → Meanwhile ms now (record_failure i worker error_type retry_at max_attempts at w).1 w'
      → Meanwhile ms now w w'

module _ (taken : Uuid → Bool) (now : DateTime) (w : World)
    (locked : AreLocked taken now (messages w)) where
  claim_keeps :
      (held : Uuid → Bool) (worker : String) (batch_size : ℕ) (lock_timeout : TimeDelta)
      (at : DateTime)
      → at < now + lock_timeout
      → AreLocked taken now (messages (claim_batch held worker batch_size lock_timeout at w).1)
  unfolding claim_batch with_messages update_rows lease
  claim_keeps held worker batch_size lock_timeout at soon =
      elim (Bool-cases (leb lock_timeout at)) [
        | inr early ↦ rw early locked
        | inl late ↦
            let picked = claimed_rows held batch_size at (at - lock_timeout) (messages w) in
            let others =
              locked_rows_stay held batch_size now at (at - lock_timeout) taken (messages w)
                (ground arith) locked in
            rw late (
              locked-update_where taken now _ (lease worker at) (messages w) (λ r. refl)
                (λ r k. not_selected taken r.id picked k others) locked)
      ]

  -- A write to the row of another message.
  other_row :
      (i : Uuid) (r s : OutboxMessageRecord)
      → taken i ≡ false
      → r.id ≡ i
      → taken s.id ≡ true
      → (s.id == r.id) ≡ false
  other_row i r s free own k = elim (Bool-cases (s.id == r.id)) [
    | inl same ↦ absurd (ground arith)
    | inr apart ↦ apart
  ]

  mark_keeps :
      (i : Uuid) (worker : String) (d : DeliveryResult) (at : DateTime)
      → taken i ≡ false
      → AreLocked taken now (messages (mark_published i worker d at w).1)
  unfolding write_published
  mark_keeps i worker d at free = of_case (marks i worker d at w)
    where
      of_case :
          Marked i worker d at w → AreLocked taken now (messages (mark_published i worker d at w).1)
      of_case (refuses e same) = rw same locked
      of_case (repeats r found again same) = rw same locked
      of_case (publishes r a reference found pending leased ref after) =
          let own = found_key (λ s. s.id) i r (messages w) found in
          rw after (
            locked-update_where taken now _ (published d at) (messages w) (published_id d at)
              (λ s k. other_row i r s free own k) locked)

  failure_keeps :
      (i : Uuid) (worker error_type : String) (retry_at : DateTime) (max_attempts : ℕ)
      (at : DateTime)
      → taken i ≡ false
      → AreLocked taken now
          (messages (record_failure i worker error_type retry_at max_attempts at w).1)
  unfolding with_messages
  failure_keeps i worker error_type retry_at max_attempts at free =
      of_case (fails i worker error_type retry_at max_attempts at w)
    where
      of_case :
          Failed i worker error_type retry_at max_attempts at w
          → AreLocked taken now
              (messages (record_failure i worker error_type retry_at max_attempts at w).1)
      of_case (refuses e same) = rw same locked
      of_case (records r found leased after) =
          let own = found_key (λ s. s.id) i r (messages w) found in
          rw after (
            locked-update_where taken now _ (failed error_type retry_at max_attempts at)
              (messages w) (failed_id error_type retry_at at max_attempts)
              (λ s k. other_row i r s free own k) locked)

Meanwhile-AreLocked :
    (ms : List OutboxMessage) (now : DateTime) {w w' : World}
    → Meanwhile ms now w w'
    → AreLocked (is_among ms) now (messages w)
    → AreLocked (is_among ms) now (messages w')
Meanwhile-AreLocked ms now done h = h
Meanwhile-AreLocked ms now (claims held worker batch_size lock_timeout at soon rest) h =
    Meanwhile-AreLocked ms now rest
      (claim_keeps (is_among ms) now _ h held worker batch_size lock_timeout at soon)
Meanwhile-AreLocked ms now (marks_published i worker d at free rest) h =
    Meanwhile-AreLocked ms now rest (mark_keeps (is_among ms) now _ h i worker d at free)
Meanwhile-AreLocked ms now (records_failure i worker error_type retry_at max_attempts at free rest)
      h =
    Meanwhile-AreLocked ms now rest
      (failure_keeps (is_among ms) now _ h i worker error_type retry_at max_attempts at free)

-- The rows of the messages that a claim returns are locked behind it.
claim-AreLocked :
    (held : Uuid → Bool) (worker : String) (batch_size : ℕ) (lock_timeout : TimeDelta)
    (now : DateTime) (w : World) (ms : List OutboxMessage)
    → (claim_batch held worker batch_size lock_timeout now w).0 ≡ ok ms
    → AreLocked
        (is_among ms)
        now
        (messages (claim_batch held worker batch_size lock_timeout now w).1)
unfolding with_messages
claim-AreLocked held worker batch_size lock_timeout now w ms h =
    let (first, left) = claim_lem held worker batch_size lock_timeout now w ms h in
    let picked = claimed_rows held batch_size now (now - lock_timeout) (messages w) in
    rw (left, first)
      (All-mono _ _ (λ r locked k. locked (sym (any-map worker now r.id picked) ∙ k)) _
        (leased_rows worker now picked (messages w)))

-- A lease excludes every other claim while it runs: a message that one call has returned is not
-- returned by a later call that comes less than its own lock timeout after the first, whichever
-- worker makes it. In between any worker may claim, less than its own lock timeout after the first
-- call, and publish or report the failure of other messages; the message itself has not been given
-- back.
pub claim_batch_exclusive :
    (held held' : Uuid → Bool) (worker worker' : String) (batch_size batch_size' : ℕ)
    (lock_timeout lock_timeout' : TimeDelta) (now now' : DateTime) (w w' : World)
    (ms ms' : List OutboxMessage)
    → (claim_batch held worker batch_size lock_timeout now w).0 ≡ ok ms
    → Meanwhile ms now (claim_batch held worker batch_size lock_timeout now w).1 w'
    → (claim_batch held' worker' batch_size' lock_timeout' now' w').0 ≡ ok ms'
    → now' < now + lock_timeout'
    → All (λ m. any (λ n. n.id == m.id) ms ≡ false) ms'
unfolding claim_batch message_from_record lease
claim_batch_exclusive held held' worker worker' batch_size batch_size' lock_timeout lock_timeout'
      now now' w w' ms ms' h between h' soon =
    let locked =
      Meanwhile-AreLocked ms now between
        (claim-AreLocked held worker batch_size lock_timeout now w ms h) in
    let (second, after) = claim_lem held' worker' batch_size' lock_timeout' now' w' ms' h' in
    let earlier : leb lock_timeout' now' ≡ true = ground arith in
    rw second (
      All-map _ _ _ (
        locked_rows_stay held' batch_size' now now' (now' - lock_timeout') (is_among ms)
          (messages w') (ground arith) locked))
