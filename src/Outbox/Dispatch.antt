-- ===== src/Outbox/Dispatch.antt =====
-- What `OutboxDispatcher.dispatch_once` counts, how long it waits before a retry, and what a failed
-- delivery leaves in the row.
use mathlib.Core.Path.{subst}
use native.Mathlib.Nat.{mul-le-mul_left, pow-le-pow_right}
use multi_agent_system.Base.{
  ℕ, suc, ◌+◌, ◌*◌, ◌^◌, ◌≤◌, ◌<◌, min, List, some, Bool, true, ◌≡◌, arith, inl, inr, Uuid,
  DateTime, ◌==◌, leb, length,
}
use multi_agent_system.Base.Keys.{updated-update_where}
use multi_agent_system.Exec.{Exec, Error, ok, err, Result-cases}
use multi_agent_system.Persistence.{World, OutboxMessageRecord}
use multi_agent_system.Schemas.{OutboxMessage, OutboxDispatchResult, DeliveryResult}
use multi_agent_system.Outbox.Repository.{
  claim_batch, record_failure, require_lease, message_of, text_is, failed, with_messages,
}
use multi_agent_system.Outbox.Claims.{messages, claim_batch_ok}
use multi_agent_system.Outbox.Rows.{failed_id}
use multi_agent_system.Outbox.Deliveries.{
  IsRetried, failed-IsRetried, Deliveries, deliver_all-Deliveries, Deliveries-total,
}
use multi_agent_system.Outbox.Dispatcher.{
  OutboxDispatcher, retry_delay, Tally, count_failure, settle, deliver, deliver_all, dispatch_once,
  class_name,
}

-- The wait before a retry is at most `retry_max`, and it is no shorter after more attempts.
retry_delay_bounds :
    (d : OutboxDispatcher) (m n : ℕ)
    → m ≤ n
    → (retry_delay d m ≤ retry_delay d n) × (retry_delay d n ≤ d.retry_max)
unfolding retry_delay
retry_delay_bounds d m n h =
    let more : 2 ^ min m 20 ≤ 2 ^ min n 20 = pow-le-pow_right (ground arith) (ground arith) in
    let scaled : d.retry_base * 2 ^ min m 20 ≤ d.retry_base * 2 ^ min n 20 =
      mul-le-mul_left d.retry_base more in
    (ground arith, ground arith)

mul_double : (a b : ℕ) → a * (b * 2) ≡ 2 * (a * b)
mul_double a b = omega arith

-- The wait starts at `retry_base` and doubles with each attempt, for the first twenty, until it
-- reaches `retry_max`.
retry_delay_doubles :
    (d : OutboxDispatcher) (n : ℕ)
    → n < 20
    → (retry_delay d 0 ≡ min d.retry_base d.retry_max)
      × (retry_delay d (suc n) ≡ min (2 * retry_delay d n) d.retry_max)
unfolding retry_delay
retry_delay_doubles d n h =
    let low : min n 20 ≡ n = ground arith in
    let next_low : min (suc n) 20 ≡ suc n = ground arith in
    let twice : d.retry_base * 2 ^ suc n ≡ 2 * (d.retry_base * 2 ^ n) =
      (let power : 2 ^ suc n ≡ 2 ^ n * 2 = ground arith in
        rw power (mul_double d.retry_base (2 ^ n))) in
    (ground arith, rw (next_low, low, twice) (ground arith))

-- After twenty attempts the wait stays the same.
retry_delay_constant : (d : OutboxDispatcher) (n : ℕ) → 20 ≤ n → retry_delay d n ≡ retry_delay d 20
unfolding retry_delay
retry_delay_constant d n h = let capped : min n 20 ≡ 20 = ground arith in rw capped

-- The wait before a retry starts at `retry_base`, doubles with each of the first twenty attempts
-- until it reaches `retry_max`, and stays the same from twenty attempts on. For any numbers of
-- attempts it is no shorter after more of them, and it never exceeds `retry_max`.
pub retry_delay_backoff :
    (d : OutboxDispatcher) (k l m n : ℕ)
    → k < 20
    → 20 ≤ l
    → m ≤ n
    → (retry_delay d 0 ≡ min d.retry_base d.retry_max)
      × (retry_delay d (suc k) ≡ min (2 * retry_delay d k) d.retry_max)
      × (retry_delay d l ≡ retry_delay d 20)
      × (retry_delay d m ≤ retry_delay d n)
      × (retry_delay d n ≤ d.retry_max)
retry_delay_backoff d k l m n early late h =
    let (first, next) = retry_delay_doubles d k early in
    let (more, most) = retry_delay_bounds d m n h in
    (first, next, retry_delay_constant d l late, more, most)

-- The counters of the result.
abbrev pub counters : OutboxDispatchResult → Tally
counters r = record {
  published = r.published;
  retried = r.retried;
  dead_lettered = r.dead_lettered;
}

abbrev pub no_counts : Tally
no_counts = record { published = 0; retried = 0; dead_lettered = 0 }

-- A dispatch that returns has settled each message that `claim_batch` gave it, one after the other
-- and each once. If the handler returned, the row of the message is published behind the
-- transaction: it had been before, or it is now, by the worker that holds the lease, with the
-- result of the delivery and without a lease; the message counts as published. If the handler
-- raised, the row had the lease of the worker and has one attempt more and no lease, and either a
-- later time, and the message counts as retried, or the dead letter, when the attempts have
-- reached the maximum, and the message counts as dead-lettered. The counters of the result are
-- these and add up to the messages claimed, at most the batch size.
pub dispatch_once_counts :
    (handler : OutboxMessage → Exec World DeliveryResult) (d : OutboxDispatcher) (now : DateTime)
    (held : Uuid → Bool) (w : World) (result : OutboxDispatchResult)
    → (dispatch_once handler d now held w).0 ≡ ok result
    → let claim = claim_batch held d.worker_id d.batch_size d.lock_timeout now w in
      (ms : List OutboxMessage) × (claim.0 ≡ ok ms)
      × Deliveries handler d now ms no_counts claim.1
          (counters result)
          (dispatch_once handler d now held w).1
      × (result.claimed ≡ length ms)
      × (result.published + result.retried + result.dead_lettered ≡ result.claimed)
      × (result.claimed ≤ d.batch_size)
unfolding dispatch_once
dispatch_once_counts handler d now held w result h =
    let claim = claim_batch held d.worker_id d.batch_size d.lock_timeout now w in
    elim (Result-cases claim.0) [
      | inr (x, k) ↦ absurd (ground arith)
      | inl (ms, k) ↦ elim (Result-cases (deliver_all handler d now ms no_counts claim.1).0) [
        | inr (x, e) ↦ absurd (ground arith)
        | inl (t, e) ↦
            let settled = deliver_all-Deliveries handler d now ms no_counts t claim.1 e in
            let counts = Deliveries-total handler d now settled in
            let few = (claim_batch_ok held d.worker_id d.batch_size d.lock_timeout now w ms k).2 in
            let same : t ≡ counters result = ground arith in
            let left : (dispatch_once handler d now held w).1
                ≡ (deliver_all handler d now ms no_counts claim.1).1 =
              ground arith in
            (
              ms,
              k,
              rw left (
                  subst
                    (λ c.
                      Deliveries handler d now ms no_counts claim.1 c
                        (deliver_all handler d now ms no_counts claim.1).1)
                    same settled),
              ground arith,
              ground arith,
              ground arith,
            )
      ]
    ]

-- A message whose handler raises, with its lease intact in the database that the handler leaves, is
-- counted and rescheduled: its row gets one attempt more and no lease, and it is tried again after
-- the delay of its attempts, or dead-lettered when the attempts have reached the maximum.
pub deliver-failed :
    (handler : OutboxMessage → Exec World DeliveryResult) (d : OutboxDispatcher) (now : DateTime)
    (m : OutboxMessage) (t : Tally) (w : World) (e : Error) (r : OutboxMessageRecord)
    → (handler m w).0 ≡ err e
    → message_of (handler m w).1 m.id ≡ some r
    → text_is r.locked_by d.worker_id ≡ true
    → ((deliver handler d now m t w).0
        ≡ ok (count_failure (leb d.max_attempts (r.attempt_count + 1)) t))
      × (message_of (deliver handler d now m t w).1 m.id
          ≡ some (failed (class_name e) (now + retry_delay d m.attempt_count) d.max_attempts now r))
      × IsRetried r
          (now + retry_delay d m.attempt_count)
          d.max_attempts
          now
          (failed (class_name e) (now + retry_delay d m.attempt_count) d.max_attempts now r)
unfolding deliver settle record_failure require_lease with_messages
deliver-failed handler d now m t w e r raised found leased =
    let retry_at = now + retry_delay d m.attempt_count in
    let row =
      updated-update_where (λ s. s.id) (λ s. s.id == r.id)
        (failed (class_name e) retry_at d.max_attempts now)
        (failed_id (class_name e) retry_at now d.max_attempts) m.id r (messages (handler m w).1)
        found (ground arith) in
    (ground arith, ground arith, failed-IsRetried (class_name e) retry_at d.max_attempts now r)
