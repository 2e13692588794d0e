-- ===== src/Outbox/Repository.antt =====
-- packages/outbox/repositories.py: `SqlAlchemyOutboxRepository`. Each method is one transaction.
-- The rows that another open transaction holds are skipped by `SKIP LOCKED`: the argument `held`.
use Prim.Native.String.{slice}
use multi_agent_system.Base.{
  ℕ, ◌+◌, ◌-◌, String, List, [], ◌∷◌, map, Option, none, some, Bool, true, false, not, ◌&&◌, ◌||◌,
  Uuid, DateTime, leb, ltb, ◌==◌, str_eq, take, select, any, find_first, update_where, is_some,
  if◌then◌else◌,
}
use multi_agent_system.Exec.{
  Exec, pure, gets, or_raise, modify, require, ◌>>=◌, ◌>>◌, message_not_found, lease_lost,
  value_error, overflow_error,
}
use multi_agent_system.Persistence.{World, OutboxMessageRecord, GovernedActionRecord}
use multi_agent_system.Schemas.{
  OutboxMessage, OutboxStatus, DeliveryResult, approval_workflow_start,
}

-- `timedelta`, in microseconds.
abbrev pub TimeDelta : Type 0
TimeDelta = ℕ

-- `_message_from_record`; `_as_utc` is the identity on times that carry a zone.
unfoldable pub message_from_record : OutboxMessageRecord → OutboxMessage
message_from_record r = record {
  create = record {
    aggregate_type = r.aggregate_type;
    aggregate_id = r.aggregate_id;
    event_type = r.event_type;
    payload = r.payload_json;
  };
  id = r.id;
  status =
      if is_some r.published_at
      then OutboxStatus.published
      else if is_some r.dead_lettered_at
      then OutboxStatus.dead_lettered
      else OutboxStatus.pending;
  attempt_count = r.attempt_count;
  available_at = r.available_at;
  locked_at = r.locked_at;
  locked_by = r.locked_by;
  published_at = r.published_at;
  dead_lettered_at = r.dead_lettered_at;
  last_error = r.last_error;
  delivery_result = r.delivery_result_json;
  created_at = r.created_at;
}

-- `or_(locked_at IS NULL, locked_at <= stale_before)`
unfoldable pub is_unlocked : Option DateTime → DateTime → Bool
is_unlocked none stale_before = true
is_unlocked (some t) stale_before = leb t stale_before

-- The `where` clause of `claim_batch`.
unfoldable pub is_claimable : DateTime → DateTime → OutboxMessageRecord → Bool
unfolding is_unlocked
is_claimable now stale_before r =
    not (is_some r.published_at)
    && not (is_some r.dead_lettered_at)
    && leb r.available_at now
    && is_unlocked r.locked_at stale_before

-- `order_by(available_at, created_at)`
unfoldable pub comes_before : OutboxMessageRecord → OutboxMessageRecord → Bool
comes_before r s =
    ltb r.available_at s.available_at
    || (r.available_at == s.available_at && leb r.created_at s.created_at)

unfoldable pub insert_sorted :
    OutboxMessageRecord → List OutboxMessageRecord → List OutboxMessageRecord
insert_sorted r [] = r ∷ []
insert_sorted r (s ∷ rows) = if comes_before r s then r ∷ s ∷ rows else s ∷ insert_sorted r rows

unfoldable pub sort_rows : List OutboxMessageRecord → List OutboxMessageRecord
unfolding insert_sorted
sort_rows [] = []
sort_rows (r ∷ rows) = insert_sorted r (sort_rows rows)

-- `record.locked_at = now; record.locked_by = worker_id`
unfoldable pub lease : String → DateTime → OutboxMessageRecord → OutboxMessageRecord
lease worker now r = record r { locked_at = some now; locked_by = some worker }

-- The rows that the statement of `claim_batch` returns.
unfoldable pub claimed_rows :
    (Uuid → Bool) → ℕ → DateTime → DateTime → List OutboxMessageRecord → List OutboxMessageRecord
claimed_rows held batch_size now stale_before rows =
    take batch_size
      (sort_rows (select (λ r. is_claimable now stale_before r && not (held r.id)) rows))

-- The rows with one of these identifiers are updated; the others stay.
unfoldable pub update_rows :
    List OutboxMessageRecord
    → (OutboxMessageRecord → OutboxMessageRecord)
    → List OutboxMessageRecord
    → List OutboxMessageRecord
update_rows picked f = update_where (λ r. any (λ c. c.id == r.id) picked) f

unfoldable pub with_messages : (List OutboxMessageRecord → List OutboxMessageRecord) → World → World
with_messages f w = record w {
  database = record w.database { outbox_messages = f w.database.outbox_messages };
}

unfoldable pub claim_batch :
    (Uuid → Bool) → String → ℕ → TimeDelta → DateTime → Exec World (List OutboxMessage)
unfolding lease claimed_rows update_rows with_messages
claim_batch held worker batch_size lock_timeout now = do
  require (leb lock_timeout now) overflow_error
  rows ←
      gets (λ w. claimed_rows held batch_size now (now - lock_timeout) w.database.outbox_messages)
  modify (with_messages (update_rows rows (lease worker now)))
  pure (map (λ r. message_from_record (lease worker now r)) rows)

-- `session.get(OutboxMessageRecord, i)`
abbrev pub message_of : World → Uuid → Option OutboxMessageRecord
message_of w i = find_first (λ r. r.id == i) w.database.outbox_messages

abbrev pub text_is : Option String → String → Bool
text_is none t = false
text_is (some s) t = str_eq s t

-- `_require_lease`
unfoldable pub require_lease : OutboxMessageRecord → String → Exec World (Unit {0})
require_lease r worker = require (text_is r.locked_by worker) lease_lost

-- `if not workflow_reference: raise ValueError`
unfoldable pub reference_of : DeliveryResult → Option String
reference_of d = elim d.workflow_execution_arn [
  | none ↦ none
  | some s ↦ if str_eq s "" then none else some s
]

unfoldable pub published : DeliveryResult → DateTime → OutboxMessageRecord → OutboxMessageRecord
published d now r = record r {
  published_at = some now;
  locked_at = none;
  locked_by = none;
  last_error = none;
  delivery_result_json = some d;
}

unfoldable pub with_reference : String → GovernedActionRecord → GovernedActionRecord
with_reference reference a = record a { workflow_execution_arn = some reference }

-- The writes of `mark_published`, to the action and to the message.
unfoldable pub write_published : Uuid → Uuid → String → DeliveryResult → DateTime → World → World
unfolding published with_reference
write_published message_id action_id reference d now w = record w {
  database = record w.database {
    governed_actions =
        update_where (λ a. a.id == action_id) (with_reference reference)
          w.database.governed_actions;
    outbox_messages =
        update_where (λ r. r.id == message_id) (published d now) w.database.outbox_messages;
  };
}

unfoldable pub publish_leased :
    OutboxMessageRecord → String → DeliveryResult → DateTime → Exec World (Unit {0})
unfolding require_lease reference_of write_published
publish_leased r worker d now = do
  require_lease r worker
  require (str_eq r.event_type approval_workflow_start) value_error
  reference ← or_raise (reference_of d) value_error
  action ←
      or_raise
        (← gets
          (λ w. find_first (λ a. a.id == r.payload_json.action_id) w.database.governed_actions))
        value_error
  modify (write_published r.id action.id reference d now)

-- A message that is published already is left as it is.
unfoldable pub publish_once :
    Bool → OutboxMessageRecord → String → DeliveryResult → DateTime → Exec World (Unit {0})
unfolding publish_leased
publish_once true r worker d now = pure tt
publish_once false r worker d now = publish_leased r worker d now

unfoldable pub mark_published : Uuid → String → DeliveryResult → DateTime → Exec World (Unit {0})
unfolding publish_once
mark_published message_id worker d now = do
  r ← or_raise (← gets (λ w. message_of w message_id)) message_not_found
  publish_once (is_some r.published_at) r worker d now

-- The writes of `record_failure`: the error, the attempt, and a later time or the dead letter. The
-- name of an error is a class name, in ASCII, so that its first 255 characters are 255 bytes.
unfoldable pub failed : String → DateTime → ℕ → DateTime → OutboxMessageRecord → OutboxMessageRecord
failed error_type retry_at max_attempts now r =
    let released = record r {
      attempt_count = r.attempt_count + 1;
      last_error = some (slice error_type 0 255);
      locked_at = none;
      locked_by = none;
    } in
    if leb max_attempts (r.attempt_count + 1)
    then record released { dead_lettered_at = some now }
    else record released { available_at = retry_at }

unfoldable pub record_failure : Uuid → String → String → DateTime → ℕ → DateTime → Exec World Bool
unfolding require_lease failed with_messages
record_failure message_id worker error_type retry_at max_attempts now = do
  r ← or_raise (← gets (λ w. message_of w message_id)) message_not_found
  require_lease r worker
  modify (
      with_messages
        (update_where (λ s. s.id == r.id) (failed error_type retry_at max_attempts now)))
  pure (leb max_attempts (r.attempt_count + 1))

unfoldable pub get : Uuid → Exec World OutboxMessage
get message_id = do
  r ← or_raise (← gets (λ w. message_of w message_id)) message_not_found
  pure (message_from_record r)
