-- ===== src/Governance/Sql.antt =====
-- packages/governance/repositories.py: `SqlAlchemyActionRepository`. A transaction is one step;
-- what other transactions commit while `create_proposal` prepares its own is the argument
-- `others`.
pub mod Lawful
pub mod Atomicity
pub mod Proposals
use multi_agent_system.Base.{
  String, [], ◌∷◌, ◌++◌, Option, none, some, Bool, true, false, ◌&&◌, Uuid, DateTime, ◌==◌, str_eq,
  find_first, update_where, if◌then◌else◌,
}
use multi_agent_system.Exec.{
  Exec, Result, Error, ok, err, pure, raise, gets, or_raise, catch, modify, ◌>>=◌, ◌>>◌,
  action_not_found, transition_conflict, integrity_error, value_error, require,
}
use multi_agent_system.Persistence.{
  World, GovernedActionRecord, AuditEventRecord, OutboxMessageRecord, admits_action, admits_event,
  admits_message, uuid4, now_utc,
}
use multi_agent_system.Schemas.{
  GovernedAction, ActionStatus, AuditEventCreate, OutboxMessageCreate, status_value,
  status_of_value, are_valid_arguments, set_onboarding_decision_tool,
}
use multi_agent_system.Governance.Interface.{ActionRepository}

-- `_record_from_action`
unfoldable pub record_from_action : GovernedAction → GovernedActionRecord
record_from_action a = record {
  id = a.id;
  case_id = a.case_id;
  review_id = a.review_id;
  tenant_id = a.tenant_id;
  tool_name = a.tool_name;
  arguments_json = a.arguments;
  status = status_value a.status;
  proposer_id = a.proposer_id;
  approver_id = a.approver_id;
  approval_comment = a.approval_comment;
  idempotency_key = a.idempotency_key;
  workflow_execution_arn = a.workflow_execution_arn;
  execution_receipt_json = none;
  created_at = a.created_at;
  decided_at = a.decided_at;
  executed_at = a.executed_at;
}

abbrev pub action_with_status : GovernedActionRecord → ActionStatus → GovernedAction
action_with_status r s = record {
  id = r.id;
  case_id = r.case_id;
  review_id = r.review_id;
  tenant_id = r.tenant_id;
  tool_name = r.tool_name;
  arguments = r.arguments_json;
  status = s;
  proposer_id = r.proposer_id;
  approver_id = r.approver_id;
  approval_comment = r.approval_comment;
  idempotency_key = r.idempotency_key;
  workflow_execution_arn = r.workflow_execution_arn;
  execution_receipt = r.execution_receipt_json;
  created_at = r.created_at;
  decided_at = r.decided_at;
  executed_at = r.executed_at;
}

-- The name of the tool is the only one that `ToolName` has, and the arguments fit their model.
unfoldable pub is_valid_record : GovernedActionRecord → Bool
is_valid_record r =
    str_eq r.tool_name set_onboarding_decision_tool && are_valid_arguments r.arguments_json

-- `_action_from_record`: the model refuses another tool or arguments, and a status that is no
-- member of the enum. The bounds on the lengths of the other texts are left out.
unfoldable pub action_from_record : GovernedActionRecord → Result GovernedAction
unfolding is_valid_record
action_from_record r =
    if is_valid_record r
    then elim (status_of_value r.status) [
      | none ↦ err value_error
      | some s ↦ ok (action_with_status r s)
    ]
    else err value_error

-- `_audit_record`
unfoldable pub audit_record : AuditEventCreate → Uuid → DateTime → AuditEventRecord
audit_record e i created_at = record {
  id = i;
  case_id = e.case_id;
  event_type = e.event_type;
  actor_id = e.actor_id;
  payload_json = e.payload;
  created_at = created_at;
}

unfoldable pub outbox_record : OutboxMessageCreate → Uuid → DateTime → OutboxMessageRecord
outbox_record m i now = record {
  id = i;
  aggregate_type = m.aggregate_type;
  aggregate_id = m.aggregate_id;
  event_type = m.event_type;
  payload_json = m.payload;
  attempt_count = 0;
  available_at = now;
  locked_at = none;
  locked_by = none;
  published_at = none;
  dead_lettered_at = none;
  last_error = none;
  delivery_result_json = none;
  created_at = now;
}

abbrev lift : Result GovernedAction → Exec World GovernedAction
lift r w = (r, w)

-- `session.get(GovernedActionRecord, i)`
abbrev pub row_of : World → Uuid → Option GovernedActionRecord
row_of w i = find_first (λ r. r.id == i) w.database.governed_actions

abbrev pub row_of_key : World → String → Uuid → Option GovernedActionRecord
row_of_key w tenant key =
    find_first (λ r. str_eq r.tenant_id tenant && r.idempotency_key == key)
      w.database.governed_actions

unfoldable pub load : Option GovernedActionRecord → Exec World (Option GovernedAction)
load none = pure none
load (some r) = do a ← lift (action_from_record r); pure (some a)

-- `_get_by_idempotency`
unfoldable pub get_by_idempotency : String → Uuid → Exec World (Option GovernedAction)
unfolding load
get_by_idempotency tenant key = do load (← gets (λ w. row_of_key w tenant key))

-- One transaction: the three rows are committed together or not at all.
unfoldable pub commit_proposal :
    GovernedActionRecord → AuditEventRecord → OutboxMessageRecord → Exec World (Unit {0})
commit_proposal a e m w =
    if admits_action w.database a && admits_event w.database e && admits_message w.database m
    then (
      ok tt,
      record w {
        database = record w.database {
          governed_actions = w.database.governed_actions ++ a ∷ [];
          audit_events = w.database.audit_events ++ e ∷ [];
          outbox_messages = w.database.outbox_messages ++ m ∷ [];
        };
      },
    )
    else (err integrity_error, w)

unfoldable pub or_integrity_error : Option GovernedAction → Exec World (GovernedAction × Bool)
or_integrity_error none = raise integrity_error
or_integrity_error (some existing) = pure (existing, false)

-- `except IntegrityError`
unfoldable pub return_winner : GovernedAction → Error → Exec World (GovernedAction × Bool)
unfolding get_by_idempotency or_integrity_error
return_winner a integrity_error = do
  existing ← get_by_idempotency a.tenant_id a.idempotency_key
  or_integrity_error existing
return_winner a e = raise e

unfoldable pub insert_proposal :
    (World → World)
    → GovernedAction
    → AuditEventCreate
    → OutboxMessageCreate
    → Exec World (GovernedAction × Bool)
unfolding commit_proposal return_winner
insert_proposal others a ev message = do
  now ← now_utc
  audit_id ← uuid4
  message_id ← uuid4
  modify others
  catch
      (do
        commit_proposal (record_from_action a) (audit_record ev audit_id now)
            (outbox_record message message_id now)
        pure (a, true))
      (return_winner a)

unfoldable pub return_or_insert :
    (World → World)
    → GovernedAction
    → AuditEventCreate
    → OutboxMessageCreate
    → Option GovernedAction
    → Exec World (GovernedAction × Bool)
unfolding insert_proposal
return_or_insert others a ev message (some existing) = pure (existing, false)
return_or_insert others a ev message none = insert_proposal others a ev message

unfoldable pub create_proposal :
    (World → World)
    → GovernedAction
    → AuditEventCreate
    → OutboxMessageCreate
    → Exec World (GovernedAction × Bool)
unfolding get_by_idempotency return_or_insert
create_proposal others a ev message = do
  existing ← get_by_idempotency a.tenant_id a.idempotency_key
  return_or_insert others a ev message existing

unfoldable pub get : Uuid → Exec World GovernedAction
get i = do r ← or_raise (← gets (λ w. row_of w i)) action_not_found; lift (action_from_record r)

-- The columns that `save_transition` assigns.
unfoldable pub apply_transition : GovernedAction → GovernedActionRecord → GovernedActionRecord
apply_transition a r = record r {
  status = status_value a.status;
  approver_id = a.approver_id;
  approval_comment = a.approval_comment;
  execution_receipt_json = a.execution_receipt;
  decided_at = a.decided_at;
  executed_at = a.executed_at;
}

commit_transition : GovernedAction → AuditEventRecord → Exec World GovernedAction
unfolding apply_transition
commit_transition a e w =
    if admits_event w.database e
    then (
      ok a,
      record w {
        database = record w.database {
          governed_actions =
              update_where (λ r. r.id == a.id) (apply_transition a) w.database.governed_actions;
          audit_events = w.database.audit_events ++ e ∷ [];
        };
      },
    )
    else (err integrity_error, w)

unfoldable pub save_transition :
    GovernedAction → AuditEventCreate → ActionStatus → Exec World GovernedAction
unfolding commit_transition
save_transition a ev wanted = do
  r ← or_raise (← gets (λ w. row_of w a.id)) action_not_found
  require (str_eq r.status (status_value wanted)) transition_conflict
  now ← now_utc
  audit_id ← uuid4
  commit_transition a (audit_record ev audit_id now)

unfoldable pub sql_repository : (World → World) → ActionRepository
sql_repository others = record {
  uses_transactional_outbox = true;
  create_proposal = create_proposal others;
  get = get;
  save_transition = save_transition;
}
