-- ===== src/Governance/Memory.antt =====
-- packages/governance/repositories.py: `InMemoryActionRepository`. Each method holds the lock from
-- its first read to its last write, so it is one step.
pub mod Lawful
pub mod Proposals
use multi_agent_system.Base.{
  ℕ, String, Option, none, some, Bool, true, false, Uuid, pair_eq, nat_eq,
}
use multi_agent_system.Base.Dict
use multi_agent_system.Exec.{
  Exec, pure, raise, gets, or_raise, catch, modify, ◌>>=◌, ◌>>◌, action_not_found,
  transition_conflict, key_error, require,
}
use multi_agent_system.Persistence.{World, ActionStore}
use multi_agent_system.Schemas.{
  GovernedAction, ActionStatus, AuditEventCreate, OutboxMessageCreate, same_status,
}
use multi_agent_system.Governance.Interface.{AuditWriter, ActionRepository}

abbrev pub actions_of : World → Uuid → Option GovernedAction
actions_of w i = Dict.get w.action_store.actions i

abbrev pub id_of : World → String × ℕ → Option Uuid
id_of w k = Dict.get w.action_store.idempotency k

abbrev with_actions : (ActionStore → ActionStore) → World → World
with_actions f w = record w { action_store = f w.action_store }

-- `self._actions[action.id] = action; self._idempotency[key] = action.id`
insert_action : GovernedAction → World → World
insert_action a w =
    with_actions
      (λ s. record s {
        actions = Dict.put s.actions a.id a;
        idempotency = Dict.put s.idempotency (a.tenant_id, a.idempotency_key) a.id;
      })
      w

-- The two `pop` calls of the handler in `create_proposal`.
remove_action : GovernedAction → World → World
remove_action a w =
    with_actions
      (λ s. record s {
        actions = Dict.pop s.actions a.id;
        idempotency = Dict.pop s.idempotency (a.tenant_id, a.idempotency_key);
      })
      w

-- `self._actions[i] = action`
replace_action : Uuid → GovernedAction → World → World
replace_action i a w = with_actions (λ s. record s { actions = Dict.put s.actions i a }) w

-- `if self._audit_writer is not None: await self._audit_writer(event)`
write_audit : Option AuditWriter → AuditEventCreate → Exec World (Unit {0})
write_audit none ev = pure tt
write_audit (some write) ev = do write ev; pure tt

-- `self._actions[existing_id], False`
return_existing : Uuid → Exec World (GovernedAction × Bool)
return_existing i = do
  found ← or_raise (← gets (λ w. actions_of w i)) key_error
  pure (found, false)

insert_with_audit :
    Option AuditWriter → GovernedAction → AuditEventCreate → Exec World (GovernedAction × Bool)
unfolding write_audit insert_action remove_action
insert_with_audit writer action ev = do
  modify (insert_action action)
  catch (write_audit writer ev) (λ e. modify (remove_action action) >> raise e)
  pure (action, true)

create_or_return :
    Option AuditWriter
    → GovernedAction
    → AuditEventCreate
    → Option Uuid
    → Exec World (GovernedAction × Bool)
unfolding return_existing insert_with_audit
create_or_return writer action ev (some existing) = return_existing existing
create_or_return writer action ev none = insert_with_audit writer action ev

unfoldable pub create_proposal :
    Option AuditWriter
    → GovernedAction
    → AuditEventCreate
    → OutboxMessageCreate
    → Exec World (GovernedAction × Bool)
unfolding create_or_return
create_proposal writer action ev message = do
  existing ← gets (λ w. id_of w (action.tenant_id, action.idempotency_key))
  create_or_return writer action ev existing

unfoldable pub get : Uuid → Exec World GovernedAction
get i = do or_raise (← gets (λ w. actions_of w i)) action_not_found

replace_with_audit :
    Option AuditWriter
    → GovernedAction
    → GovernedAction
    → AuditEventCreate
    → Exec World GovernedAction
unfolding write_audit replace_action
replace_with_audit writer current action ev = do
  modify (replace_action action.id action)
  catch (write_audit writer ev) (λ e. modify (replace_action action.id current) >> raise e)
  pure action

unfoldable pub save_transition :
    Option AuditWriter
    → GovernedAction
    → AuditEventCreate
    → ActionStatus
    → Exec World GovernedAction
unfolding replace_with_audit
save_transition writer action ev wanted = do
  current ← or_raise (← gets (λ w. actions_of w action.id)) action_not_found
  require (same_status current.status wanted) transition_conflict
  replace_with_audit writer current action ev

unfoldable pub in_memory_repository : Option AuditWriter → ActionRepository
in_memory_repository writer = record {
  uses_transactional_outbox = false;
  create_proposal = create_proposal writer;
  get = get;
  save_transition = save_transition writer;
}
