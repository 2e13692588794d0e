-- ===== src/Tests/Proposals.antt =====
-- The repositories of the governance service and `propose`, on concrete requests.
use multi_agent_system.Base.{[], none, Bool, true, ◌≡◌, refl, arith, ◌⊎◌}
use multi_agent_system.Exec.{Result, ok}
use multi_agent_system.Persistence.{World, admits_action, admits_event, admits_message}
use multi_agent_system.Schemas.{
  AuditEventCreate, has_role, contains_role, are_valid_arguments, Role, Principal, GovernedAction,
}
use multi_agent_system.Governance.Laws.{IsLawful}
use multi_agent_system.Governance.Memory.{in_memory_repository}
use multi_agent_system.Governance.Memory.Lawful.{in_memory_repository-IsLawful, IsSeparate}
use multi_agent_system.Governance.Sql.{
  sql_repository, create_proposal, record_from_action, audit_record,
}
use multi_agent_system.Base.{some, false, Option, nat_eq, pair_eq}
use multi_agent_system.Base.Dict
use mathlib.Core.Path.{subst}
use multi_agent_system.Base.{Option-cases, inl, inr}
use multi_agent_system.Cases.Memory as Cases
use multi_agent_system.Retrieval.Bounds.{the_same}
use multi_agent_system.Exec.{err, runtime_error}
use multi_agent_system.Governance.{AuditWriter}
use multi_agent_system.Governance.Memory
use multi_agent_system.Governance.Memory.{actions_of, id_of}
use multi_agent_system.Governance.Memory.Proposals.{
  create_proposal_rollback, create_proposal_replay,
}
use multi_agent_system.Governance.Sql.Lawful.{sql_repository-IsLawful}
use multi_agent_system.Governance.Sql.Atomicity.{
  create_proposal_atomic, with_proposal, event_row, message_row, at_commit, IsOfOthers,
}
use multi_agent_system.Governance.Sql.Proposals.{
  IsOutboxed, IsProposed, propose_ok, propose-IsOutboxed,
}
use multi_agent_system.Governance.Service.{
  propose, proposal_for, proposed_event, start_message, in_memory_supplier_system,
}
use multi_agent_system.Tests.Fixtures.{
  alone, quiet, library, workflow, person, world, supplier_case, review, proposal_request,
  pending_world,
}

sql_repository-IsLawful_example : IsLawful (sql_repository quiet)
sql_repository-IsLawful_example = sql_repository-IsLawful quiet

no_writer : IsSeparate none
no_writer = record { apart = λ write ev w h. absurd (ground arith) }

-- The writer that the container passes; it raises for an unknown case.
abbrev writer : Option AuditWriter
writer = some Cases.append_audit_event

append_audit_event-apart :
    (ev : AuditEventCreate) (w : World)
    → (Cases.append_audit_event ev w).1.action_store ≡ w.action_store
unfolding Cases.append_audit_event Cases.get
append_audit_event-apart ev w = elim (Option-cases (Dict.get w.case_store.cases ev.case_id)) [
  | inl missing ↦ ground arith
  | inr (c, there) ↦ ground arith
]

writer-IsSeparate : IsSeparate writer
writer-IsSeparate = record {
  apart = λ write ev w h.
      subst (λ f. (f ev w).1.action_store ≡ w.action_store)
        (the_same Cases.append_audit_event write h) (append_audit_event-apart ev w);
}

in_memory_repository-IsLawful_example : IsLawful (in_memory_repository writer)
in_memory_repository-IsLawful_example = in_memory_repository-IsLawful writer writer-IsSeparate

abbrev ann : Principal
ann = person "ann" Role.analyst

abbrev new_world : World
new_world = world [] []

abbrev proposal : GovernedAction
proposal = proposal_for library supplier_case review proposal_request ann 1000

abbrev proposing : Result (GovernedAction × Bool) × World
proposing =
    create_proposal quiet proposal (proposed_event proposal "ann") (start_message proposal)
      new_world

abbrev commit_world : World
commit_world =
    at_commit quiet proposal (proposed_event proposal "ann") (start_message proposal) new_world

create_proposal_atomic_example :
    (proposing ≡ (
      ok (proposal, true),
      record commit_world {
        database =
            with_proposal
              (record_from_action proposal)
              (event_row quiet proposal
                (proposed_event proposal "ann")
                (start_message proposal)
                new_world)
              (message_row quiet proposal
                (proposed_event proposal "ann")
                (start_message proposal)
                new_world)
              commit_world.database;
      },
    ))
    ⊎ (((proposing.1 ≡ new_world) ⊎ (proposing.1 ≡ commit_world))
        × IsOfOthers quiet proposal
            (proposed_event proposal "ann")
            (start_message proposal)
            new_world
            proposing.0)
create_proposal_atomic_example =
    create_proposal_atomic quiet proposal (proposed_event proposal "ann") (start_message proposal)
      new_world

abbrev proposed : Result GovernedAction × World
proposed =
    propose library (sql_repository quiet) workflow (in_memory_supplier_system library) alone
      supplier_case review proposal_request ann new_world

ann_proposes : proposed.0 ≡ ok proposal
unfolding propose has_role contains_role are_valid_arguments proposal_for sql_repository
    create_proposal admits_action record_from_action admits_event audit_record proposed_event
    admits_message
ann_proposes = refl

propose_ok_example : IsProposed supplier_case review proposal_request ann proposal
propose_ok_example =
    propose_ok quiet library workflow (in_memory_supplier_system library) alone supplier_case review
      proposal_request ann new_world proposal ann_proposes

pending_world-IsOutboxed : IsOutboxed pending_world
pending_world-IsOutboxed = (refl, tt)

abbrev proposed_again : Result GovernedAction × World
proposed_again =
    propose library (sql_repository quiet) workflow (in_memory_supplier_system library) alone
      supplier_case review proposal_request ann pending_world

propose-IsOutboxed_example : IsOutboxed proposed_again.1
propose-IsOutboxed_example =
    propose-IsOutboxed quiet (λ v h. h) library workflow (in_memory_supplier_system library) alone
      (λ n v h. h) supplier_case review proposal_request ann pending_world pending_world-IsOutboxed

-- An audit writer that always raises.
abbrev failing : AuditWriter
failing ev w = (err runtime_error, w)

abbrev writer_of : Option AuditWriter → AuditWriter
writer_of none = failing
writer_of (some write) = write

failing-IsSeparate : IsSeparate (some failing)
failing-IsSeparate = record {
  apart = λ write ev w h. let same : failing ≡ write = λ i. writer_of (h i) in rw (← same) refl;
}

abbrev audit_failed : Result (GovernedAction × Bool) × World
audit_failed =
    Memory.create_proposal (some failing) proposal (proposed_event proposal "ann")
      (start_message proposal) new_world

audit_fails : audit_failed.0 ≡ err runtime_error
unfolding Memory.create_proposal Dict.get
audit_fails = refl

nothing_stored : actions_of new_world 40 ≡ none
unfolding Dict.get
nothing_stored = refl

no_key_used : id_of new_world ("acme", 9) ≡ none
unfolding Dict.get
no_key_used = refl

create_proposal_rollback_example :
    (actions_of audit_failed.1 40 ≡ actions_of new_world 40)
    × (id_of audit_failed.1 ("acme", 9) ≡ id_of new_world ("acme", 9))
unfolding proposal_for
create_proposal_rollback_example =
    create_proposal_rollback failing proposal (proposed_event proposal "ann")
      (start_message proposal) new_world runtime_error 40 ("acme", 9) failing-IsSeparate
      nothing_stored no_key_used audit_fails

abbrev stored : Result (GovernedAction × Bool) × World
stored =
    Memory.create_proposal none proposal (proposed_event proposal "ann") (start_message proposal)
      new_world

is_stored : stored.0 ≡ ok (proposal, true)
unfolding Memory.create_proposal Dict.get
is_stored = refl

create_proposal_replay_example :
    Memory.create_proposal none proposal
      (proposed_event proposal "ann")
      (start_message proposal)
      stored.1
    ≡ (ok (proposal, false), stored.1)
create_proposal_replay_example =
    create_proposal_replay none none proposal proposal proposal (proposed_event proposal "ann")
      (proposed_event proposal "ann") (start_message proposal) (start_message proposal) new_world
      no_writer refl refl is_stored
