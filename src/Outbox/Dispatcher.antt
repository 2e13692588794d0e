-- ===== src/Outbox/Dispatcher.antt =====
-- packages/outbox/dispatcher.py: `ApprovalWorkflowStartHandler` and `OutboxDispatcher`.
use multi_agent_system.Base.{
  ℕ, ◌+◌, ◌*◌, ◌^◌, min, String, List, [], ◌∷◌, some, Bool, true, false, Uuid, DateTime, ◌==◌,
  str_eq, length,
}
use multi_agent_system.Exec.{
  Exec, Result, Error, ok, err, pure, raise, catch, require, ◌>>=◌, ◌>>◌, value_error,
}
use multi_agent_system.Exec
use multi_agent_system.Persistence.{World}
use multi_agent_system.Schemas.{
  OutboxMessage, OutboxDispatchResult, DeliveryResult, approval_workflow_start,
}
use multi_agent_system.Governance.{ActionRepository, ApprovalWorkflow}
use multi_agent_system.Outbox.Repository.{TimeDelta, claim_batch, mark_published, record_failure}

-- `type(exc).__name__`
unfoldable pub class_name : Error → String
class_name Exec.action_not_found = "ActionNotFoundError"
class_name Exec.transition_conflict = "ActionTransitionConflictError"
class_name Exec.authorization_denied = "AuthorizationDeniedError"
class_name Exec.action_state = "ActionStateError"
class_name Exec.idempotency_conflict = "IdempotencyConflictError"
class_name Exec.case_not_found = "CaseNotFoundError"
class_name Exec.review_not_found = "ReviewNotFoundError"
class_name Exec.execution_not_found = "ReviewExecutionNotFoundError"
class_name Exec.execution_state = "ReviewExecutionStateError"
class_name Exec.authentication_error = "AuthenticationError"
class_name Exec.message_not_found = "OutboxMessageNotFoundError"
class_name Exec.lease_lost = "OutboxLeaseLostError"
class_name Exec.integrity_error = "IntegrityError"
class_name Exec.value_error = "ValueError"
class_name Exec.runtime_error = "RuntimeError"
class_name Exec.overflow_error = "OverflowError"
class_name Exec.key_error = "KeyError"
class_name (Exec.client_error code) = "ClientError"
class_name (Exec.http_error status) = "HTTPException"

-- `ApprovalWorkflowStartHandler.handle`
unfoldable pub handle :
    ActionRepository → ApprovalWorkflow → OutboxMessage → Exec World DeliveryResult
handle actions workflow message = do
  require (str_eq message.event_type approval_workflow_start) value_error
  action ← actions.get message.payload.action_id
  require (action.id == message.aggregate_id) value_error
  reference ← workflow.start action
  pure (record { workflow_execution_arn = some reference })

pub record OutboxDispatcher : Type 0 where
  pub worker_id : String
  pub batch_size : ℕ
  pub lock_timeout : TimeDelta
  pub max_attempts : ℕ
  pub retry_base : TimeDelta
  pub retry_max : TimeDelta

-- `_retry_delay`
unfoldable pub retry_delay : OutboxDispatcher → ℕ → TimeDelta
retry_delay d attempt_count = min (d.retry_base * 2 ^ min attempt_count 20) d.retry_max

-- The counters of `dispatch_once`.
pub record Tally : Type 0 where
  pub published : ℕ
  pub retried : ℕ
  pub dead_lettered : ℕ

unfoldable pub count_failure : Bool → Tally → Tally
count_failure true t = record t { dead_lettered = t.dead_lettered + 1 }
count_failure false t = record t { retried = t.retried + 1 }

module _ (handler : OutboxMessage → Exec World DeliveryResult) (d : OutboxDispatcher)
    (current_time : DateTime) where
  -- The body of the loop after `handle` has returned, or raised.
  unfoldable pub settle : OutboxMessage → Tally → Result DeliveryResult → Exec World Tally
  unfolding count_failure
  settle message t (ok delivery_result) = do
    mark_published message.id d.worker_id delivery_result current_time
    pure (record t { published = t.published + 1 })
  settle message t (err e) = do
    is_dead_lettered ←
        record_failure message.id d.worker_id (class_name e)
          (current_time + retry_delay d message.attempt_count) d.max_attempts current_time
    pure (count_failure is_dead_lettered t)

  unfoldable pub deliver : OutboxMessage → Tally → Exec World Tally
  unfolding settle
  deliver message t w = let (r, w') = handler message w in settle message t r w'

  unfoldable pub deliver_all : List OutboxMessage → Tally → Exec World Tally
  deliver_all [] t = pure t
  deliver_all (message ∷ rest) t = do t' ← deliver message t; deliver_all rest t'

  -- `dispatch_once(now=current_time)`
  unfoldable pub dispatch_once : (Uuid → Bool) → Exec World OutboxDispatchResult
  unfolding deliver_all
  dispatch_once held = do
    messages ← claim_batch held d.worker_id d.batch_size d.lock_timeout current_time
    t ← deliver_all messages (record { published = 0; retried = 0; dead_lettered = 0 })
    pure (record {
      claimed = length messages;
      published = t.published;
      retried = t.retried;
      dead_lettered = t.dead_lettered;
    })
