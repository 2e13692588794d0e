-- ===== src/Outbox/Deliveries.antt =====
-- What one run of the loop of `OutboxDispatcher.dispatch_once` leaves of each message, and what it
-- counts.
use mathlib.Core.Path.{subst}
use multi_agent_system.Base.{
  ℕ, ◌+◌, String, List, [], ◌∷◌, none, some, Bool, true, false, ◌≡◌, ◌⊎◌, refl, sym, ap, ◌∙◌, arith,
  inl, inr, Uuid, DateTime, ◌==◌, leb, length, is_some, Bool-cases, if◌then◌else◌,
}
use multi_agent_system.Base.Keys.{updated-update_where}
use multi_agent_system.Exec.{Exec, Error, ok, err, Result-cases}
use multi_agent_system.Persistence.{World, OutboxMessageRecord}
use multi_agent_system.Schemas.{OutboxMessage, DeliveryResult}
use multi_agent_system.Outbox.Repository.{
  mark_published, record_failure, message_of, text_is, published, failed, write_published,
  with_messages,
}
use multi_agent_system.Outbox.Claims.{messages}
use multi_agent_system.Outbox.Rows.{published_id, failed_id}
use multi_agent_system.Outbox.Writes.{
  Marked, Failed, marks, fails, refuses, repeats, publishes, records,
}
use multi_agent_system.Outbox.Dispatcher.{
  OutboxDispatcher, retry_delay, Tally, count_failure, settle, deliver, deliver_all, class_name,
}

-- The row after a failed delivery: one attempt more, the lease given up, and either the dead letter
-- or a later time.
pub record IsRetried (before : OutboxMessageRecord) (retry_at : DateTime) (max_attempts : ℕ)
    (now : DateTime) (after : OutboxMessageRecord) : Type 0 where
  pub counted : after.attempt_count ≡ before.attempt_count + 1
  pub unlocked : (after.locked_at ≡ none) × (after.locked_by ≡ none)
  pub unpublished : after.published_at ≡ before.published_at
  pub buried :
      after.dead_lettered_at
      ≡ (if leb max_attempts (before.attempt_count + 1) then some now else before.dead_lettered_at)
  pub delayed :
      after.available_at
      ≡ (if leb max_attempts (before.attempt_count + 1) then before.available_at else retry_at)

pub failed-IsRetried :
    (error_type : String) (retry_at : DateTime) (max_attempts : ℕ) (now : DateTime)
    (r : OutboxMessageRecord)
    → IsRetried r retry_at max_attempts now (failed error_type retry_at max_attempts now r)
unfolding failed
failed-IsRetried error_type retry_at max_attempts now r = record {
  counted = ground arith;
  unlocked = (ground arith, ground arith);
  unpublished = ground arith;
  buried = ground arith;
  delayed = ground arith;
}

-- The row after a delivery: as it was, if it had been published before, and else published now, by
-- the worker that holds its lease, with the result of the delivery and without a lease.
abbrev pub IsPublished :
    String → DeliveryResult → DateTime → OutboxMessageRecord → OutboxMessageRecord → Type 0
IsPublished worker delivery now before after =
    ((is_some before.published_at ≡ true) × (after ≡ before))
    ⊎ ((is_some before.published_at ≡ false)
        × (text_is before.locked_by worker ≡ true)
        × (after.published_at ≡ some now)
        × (after.delivery_result_json ≡ some delivery)
        × (after.locked_at ≡ none)
        × (after.locked_by ≡ none))

mark_published-IsPublished :
    (i : Uuid) (worker : String) (delivery : DeliveryResult) (now : DateTime) (w : World)
    (x : Unit {0})
    → (mark_published i worker delivery now w).0 ≡ ok x
    → (before : OutboxMessageRecord) × (after : OutboxMessageRecord) × (message_of w i
        ≡ some before)
      × (message_of (mark_published i worker delivery now w).1 i ≡ some after)
      × IsPublished worker delivery now before after
unfolding write_published published
mark_published-IsPublished i worker delivery now w x h = of_case (marks i worker delivery now w)
  where
    of_case :
        Marked i worker delivery now w
        → (before : OutboxMessageRecord) × (after : OutboxMessageRecord) × (message_of w i
            ≡ some before)
          × (message_of (mark_published i worker delivery now w).1 i ≡ some after)
          × IsPublished worker delivery now before after
    of_case (refuses e same) = absurd (ground arith)
    of_case (repeats r found again same) = (r, r, found, ground arith, inl (again, refl))
    of_case (publishes r a reference found pending leased ref written) =
        let row =
          updated-update_where (λ s. s.id) (λ s. s.id == r.id) (published delivery now)
            (published_id delivery now) i r (messages w) found (ground arith) in
        (
          r,
          published delivery now r,
          found,
          rw written row,
          inr (pending, leased, refl, refl, refl, refl),
        )

record_failure-IsRetried :
    (i : Uuid) (worker error_type : String) (retry_at : DateTime) (max_attempts : ℕ)
    (now : DateTime) (w : World) (dead : Bool)
    → (record_failure i worker error_type retry_at max_attempts now w).0 ≡ ok dead
    → (before : OutboxMessageRecord) × (after : OutboxMessageRecord) × (message_of w i
        ≡ some before)
      × (text_is before.locked_by worker ≡ true)
      × (message_of (record_failure i worker error_type retry_at max_attempts now w).1 i
          ≡ some after)
      × IsRetried before retry_at max_attempts now after
      × (dead ≡ leb max_attempts (before.attempt_count + 1))
unfolding with_messages
record_failure-IsRetried i worker error_type retry_at max_attempts now w dead h =
    of_case (fails i worker error_type retry_at max_attempts now w)
  where
    of_case :
        Failed i worker error_type retry_at max_attempts now w
        → (before : OutboxMessageRecord) × (after : OutboxMessageRecord) × (message_of w i
            ≡ some before)
          × (text_is before.locked_by worker ≡ true)
          × (message_of (record_failure i worker error_type retry_at max_attempts now w).1 i
              ≡ some after)
          × IsRetried before retry_at max_attempts now after
          × (dead ≡ leb max_attempts (before.attempt_count + 1))
    of_case (refuses e same) = absurd (ground arith)
    of_case (records r found leased written) =
        let row =
          updated-update_where (λ s. s.id) (λ s. s.id == r.id)
            (failed error_type retry_at max_attempts now)
            (failed_id error_type retry_at now max_attempts) i r (messages w) found
            (ground arith) in
        (
          r,
          failed error_type retry_at max_attempts now r,
          found,
          leased,
          rw written row,
          failed-IsRetried error_type retry_at max_attempts now r,
          ground arith,
        )

module _ (handler : OutboxMessage → Exec World DeliveryResult) (d : OutboxDispatcher)
    (now : DateTime) where
  -- What has become of one message, from the state in which its handler is called to the state
  -- behind its transaction, and how it is counted: as published, as retried or as dead-lettered.
  pub data Settled (m : OutboxMessage) (t : Tally) (w : World) (t' : Tally) (w' : World)
      : Type 0 where
    published_ :
        (delivery : DeliveryResult) (before after : OutboxMessageRecord)
        → (handler m w).0 ≡ ok delivery
        → message_of (handler m w).1 m.id ≡ some before
        → message_of w' m.id ≡ some after
        → IsPublished d.worker_id delivery now before after
        → t' ≡ record t { published = t.published + 1 }
        → Settled m t w t' w'
    failed_ :
        (e : Error) (before after : OutboxMessageRecord)
        → (handler m w).0 ≡ err e
        → message_of (handler m w).1 m.id ≡ some before
        → text_is before.locked_by d.worker_id ≡ true
        → message_of w' m.id ≡ some after
        → IsRetried before (now + retry_delay d m.attempt_count) d.max_attempts now after
        → (leb d.max_attempts (before.attempt_count + 1) ≡ true)
            × (t' ≡ record t { dead_lettered = t.dead_lettered + 1 })
          ⊎ (leb d.max_attempts (before.attempt_count + 1) ≡ false)
            × (t' ≡ record t { retried = t.retried + 1 })
        → Settled m t w t' w'

  -- The messages one after the other.
  infixr 25 ◌next◌
  pub data Deliveries : List OutboxMessage → Tally → World → Tally → World → Type 0 where
    done : {t : Tally} {w : World} → Deliveries [] t w t w
    ◌next◌ :
        {m : OutboxMessage} {ms : List OutboxMessage} {t t₁ t' : Tally} {w w₁ w' : World}
        → Settled m t w t₁ w₁
        → Deliveries ms t₁ w₁ t' w'
        → Deliveries (m ∷ ms) t w t' w'

  deliver-Settled :
      (m : OutboxMessage) (t t' : Tally) (w : World)
      → (deliver handler d now m t w).0 ≡ ok t'
      → Settled m t w t' (deliver handler d now m t w).1
  unfolding deliver settle count_failure
  deliver-Settled m t t' w h = elim (Result-cases (handler m w).0) [
    | inl (delivery, handled) ↦
        elim (Result-cases (mark_published m.id d.worker_id delivery now (handler m w).1).0) [
          | inr (x, e) ↦ absurd (ground arith)
          | inl (x, e) ↦
              let (before, after, found, left, marked) =
                mark_published-IsPublished m.id d.worker_id delivery now (handler m w).1 x e in
              published_ delivery before after handled found (ground arith) marked (ground arith)
        ]
    | inr (x, raised) ↦
        let retry_at = now + retry_delay d m.attempt_count in
        elim (Result-cases
          (record_failure m.id d.worker_id (class_name x) retry_at d.max_attempts now
            (handler m w).1).0) [
              | inr (y, e) ↦ absurd (ground arith)
              | inl (dead, e) ↦
                  let (before, after, found, leased, left, retried, same) =
                    record_failure-IsRetried m.id d.worker_id (class_name x) retry_at d.max_attempts
                      now (handler m w).1 dead e in
                  elim (Bool-cases dead) [
                    | inl last ↦
                        failed_ x before after raised found leased (ground arith) retried
                          (inl (ground arith, ground arith))
                    | inr more ↦
                        failed_ x before after raised found leased (ground arith) retried
                          (inr (ground arith, ground arith))
                  ]
            ]
  ]

  pub deliver_all-Deliveries :
      (ms : List OutboxMessage) (t t' : Tally) (w : World)
      → (deliver_all handler d now ms t w).0 ≡ ok t'
      → Deliveries ms t w t' (deliver_all handler d now ms t w).1
  unfolding deliver_all
  deliver_all-Deliveries [] t t' w h =
      let same : t ≡ t' = ground arith in subst (λ x. Deliveries [] t w x w) same done
  deliver_all-Deliveries (m ∷ ms) t t' w h = elim (Result-cases (deliver handler d now m t w).0) [
    | inl (t₁, k) ↦
        let w₁ = (deliver handler d now m t w).1 in
        let both : deliver_all handler d now (m ∷ ms) t w ≡ deliver_all handler d now ms t₁ w₁ =
          ground arith in
        rw both (
          deliver-Settled m t t₁ w k
          next deliver_all-Deliveries ms t₁ t' w₁ (ap (λ x. x.0) (sym both) ∙ h))
    | inr (x, k) ↦ absurd (ground arith)
  ]

  -- Each message is counted once.
  pub Deliveries-total :
      {ms : List OutboxMessage} {t t' : Tally} {w w' : World}
      → Deliveries ms t w t' w'
      → t'.published + t'.retried + t'.dead_lettered
        ≡ t.published + t.retried + t.dead_lettered + length ms
  Deliveries-total done = ground arith
  Deliveries-total (published_ _ _ _ _ _ _ _ same next rest) =
      let more = Deliveries-total rest in ground arith
  Deliveries-total (failed_ _ _ _ _ _ _ _ _ (inl (_, same)) next rest) =
      let more = Deliveries-total rest in ground arith
  Deliveries-total (failed_ _ _ _ _ _ _ _ _ (inr (_, same)) next rest) =
      let more = Deliveries-total rest in ground arith
