-- ===== src/Tests/Outbox.antt =====
-- The outbox on a database with one message.
use multi_agent_system.Base.{
  ◌+◌, ◌*◌, ◌≤◌, min, List, [], ◌∷◌, some, Bool, false, Uuid, ◌≡◌, refl, arith, leb, length, any,
  All, ◌==◌, if◌then◌else◌,
}
use multi_agent_system.Exec.{Result, Exec, ok, err, lease_lost, runtime_error}
use multi_agent_system.Persistence.{World, OutboxMessageRecord}
use multi_agent_system.Schemas.{OutboxMessage, OutboxDispatchResult, DeliveryResult}
use multi_agent_system.Outbox.Repository.{
  claim_batch, mark_published, record_failure, message_of, lease, message_from_record, failed,
  is_claimable, comes_before, sort_rows,
}
use multi_agent_system.Outbox.Dispatcher.{
  OutboxDispatcher, retry_delay, Tally, count_failure, deliver, dispatch_once, class_name,
}
use multi_agent_system.Outbox.Claims.{claim_batch_ok, IsLeased, IsByAvailability, open_rows}
use multi_agent_system.Outbox.Exclusive
use multi_agent_system.Outbox.Exclusive.{Meanwhile, claim_batch_exclusive}
use multi_agent_system.Outbox.Rows.{IsSound, IsTable}
use multi_agent_system.Outbox.Leases.{lease_required}
use multi_agent_system.Outbox.Steps.{claims, done, ◌then◌, steps-IsTable, finished_stays}
use multi_agent_system.Outbox.Dispatch.{
  retry_delay_backoff, dispatch_once_counts, deliver-failed, counters, no_counts,
}
use multi_agent_system.Outbox.Deliveries.{IsRetried, Deliveries}
use multi_agent_system.Tests.Fixtures.{world, message_row, pending_world}

abbrev no_locks : Uuid → Bool
no_locks i = false

abbrev claiming : Result (List OutboxMessage) × World
claiming = claim_batch no_locks "one" 10 300 2000 pending_world

abbrev leased_row : OutboxMessageRecord
leased_row = record message_row { locked_at = some 2000; locked_by = some "one" }

abbrev leased : OutboxMessage
leased = message_from_record leased_row

one_claims : claiming.0 ≡ ok (leased ∷ [])
unfolding claim_batch sort_rows is_claimable
one_claims = refl

claim_batch_ok_example :
    All (IsLeased "one" 2000) (leased ∷ [])
    × IsByAvailability (leased ∷ [])
    × (1 ≡ min 10 (length (open_rows no_locks "one" 10 300 2000 pending_world)))
claim_batch_ok_example =
    claim_batch_ok no_locks "one" 10 300 2000 pending_world (leased ∷ []) one_claims

abbrev second_row : OutboxMessageRecord
second_row = record message_row { id = 61; aggregate_id = 41; available_at = 11 }

abbrev two_messages : World
two_messages = world [] (second_row ∷ message_row ∷ [])

abbrev first_claim : Result (List OutboxMessage) × World
first_claim = claim_batch no_locks "one" 1 300 2000 two_messages

first_claims : first_claim.0 ≡ ok (leased ∷ [])
unfolding claim_batch sort_rows is_claimable comes_before
first_claims = refl

abbrev second : List OutboxMessage
second = message_from_record (lease "two" 2100 (failed "ValueError" 2070 5 2060 second_row)) ∷ []

-- In between, another worker claims the other message and reports a failure.
abbrev after_first : World
after_first =
    (record_failure 61 "three" "ValueError" 2070 5 2060
      (claim_batch no_locks "three" 1 300 2050 first_claim.1).1).1

in_between : Meanwhile (leased ∷ []) 2000 first_claim.1 after_first
unfolding message_from_record
in_between =
    Exclusive.claims no_locks "three" 1 300 2050 (omega arith)
      (Exclusive.records_failure 61 "three" "ValueError" 2070 5 2060 refl Exclusive.done)

second_claims : (claim_batch no_locks "two" 10 300 2100 after_first).0 ≡ ok second
unfolding claim_batch sort_rows is_claimable comes_before record_failure failed
second_claims = refl

claim_batch_exclusive_example :
    All (λ (m : OutboxMessage). any (λ n. n.id == m.id) (leased ∷ []) ≡ false) second
claim_batch_exclusive_example =
    claim_batch_exclusive no_locks no_locks "one" "two" 1 10 300 300 2000 2100 two_messages
      after_first (leased ∷ []) second first_claims in_between second_claims (omega arith)

message_row-IsSound : IsSound message_row
message_row-IsSound = record { paired = refl; released = refl; buried = refl; once = refl }

pending_world-IsTable : IsTable pending_world
pending_world-IsTable = ((message_row-IsSound, tt), (tt, tt))

steps-IsTable_example : IsTable claiming.1
steps-IsTable_example =
    steps-IsTable (claims no_locks "one" 10 300 2000 then done) pending_world-IsTable

abbrev published_row : OutboxMessageRecord
published_row = record message_row { published_at = some 50 }

abbrev published_world : World
published_world = world [] (published_row ∷ [])

published_world-IsTable : IsTable published_world
published_world-IsTable =
    ((record { paired = refl; released = refl; buried = refl; once = refl }, tt), (tt, tt))

finished_stays_example :
    message_of (claim_batch no_locks "one" 10 300 2000 published_world).1 60 ≡ some published_row
finished_stays_example =
    finished_stays 60 published_row (claims no_locks "one" 10 300 2000 then done)
      published_world-IsTable refl refl

abbrev delivery : DeliveryResult
delivery = record { workflow_execution_arn = some "arn:execution" }

lease_required_example :
    (mark_published 60 "two" delivery 2100 pending_world ≡ (err lease_lost, pending_world))
    × (record_failure 60 "two" "ValueError" 2200 5 2100 pending_world
        ≡ (err lease_lost, pending_world))
lease_required_example =
    lease_required 60 "two" "ValueError" delivery 2200 2100 5 pending_world message_row refl refl
      refl

abbrev dispatcher : OutboxDispatcher
dispatcher = record {
  worker_id = "one";
  batch_size = 10;
  lock_timeout = 300;
  max_attempts = 5;
  retry_base = 5;
  retry_max = 300;
}

retry_delay_backoff_example :
    (retry_delay dispatcher 0 ≡ min 5 300)
    × (retry_delay dispatcher 8 ≡ min (2 * retry_delay dispatcher 7) 300)
    × (retry_delay dispatcher 25 ≡ retry_delay dispatcher 20)
    × (retry_delay dispatcher 3 ≤ retry_delay dispatcher 30)
    × (retry_delay dispatcher 30 ≤ 300)
retry_delay_backoff_example =
    retry_delay_backoff dispatcher 7 25 3 30 (omega arith) (omega arith) (omega arith)

-- A handler that always raises.
abbrev broken : OutboxMessage → Exec World DeliveryResult
broken message w = (err runtime_error, w)

-- A handler that delivers the first message and raises for the second.
abbrev faulty : OutboxMessage → Exec World DeliveryResult
faulty message w = if message.id == 60 then (ok delivery, w) else (err runtime_error, w)

abbrev both_pending : World
both_pending = world pending_world.database.governed_actions (second_row ∷ message_row ∷ [])

abbrev counted : OutboxDispatchResult
counted = record { claimed = 2; published = 1; retried = 1; dead_lettered = 0 }

faulty_dispatch : (dispatch_once faulty dispatcher 2000 no_locks both_pending).0 ≡ ok counted
unfolding dispatch_once claim_batch sort_rows is_claimable deliver record_failure
    message_from_record comes_before mark_published
faulty_dispatch = refl

abbrev dispatcher_claim : Result (List OutboxMessage) × World
dispatcher_claim = claim_batch no_locks "one" 10 300 2000 both_pending

dispatch_once_counts_example :
    (ms : List OutboxMessage) × (dispatcher_claim.0 ≡ ok ms)
    × Deliveries faulty dispatcher 2000 ms no_counts dispatcher_claim.1
        (counters counted)
        (dispatch_once faulty dispatcher 2000 no_locks both_pending).1
    × (2 ≡ length ms)
    × (1 + 1 + 0 ≡ 2)
    × (2 ≤ 10)
dispatch_once_counts_example =
    dispatch_once_counts faulty dispatcher 2000 no_locks both_pending counted faulty_dispatch

abbrev none_yet : Tally
none_yet = record { published = 0; retried = 0; dead_lettered = 0 }

abbrev leased_world : World
leased_world = world [] (leased_row ∷ [])

deliver-failed_example :
    ((deliver broken dispatcher 2000 leased none_yet leased_world).0
      ≡ ok (count_failure (leb 5 1) none_yet))
    × (message_of (deliver broken dispatcher 2000 leased none_yet leased_world).1 60
        ≡ some (failed "RuntimeError" (2000 + retry_delay dispatcher 0) 5 2000 leased_row))
    × IsRetried leased_row
        (2000 + retry_delay dispatcher 0)
        5
        2000
        (failed "RuntimeError" (2000 + retry_delay dispatcher 0) 5 2000 leased_row)
unfolding class_name message_from_record
deliver-failed_example =
    deliver-failed broken dispatcher 2000 leased none_yet leased_world runtime_error leased_row refl
      refl refl
