-- ===== src/Governance/Sql/Atomicity.antt =====
-- `create_proposal` of the PostgreSQL repository as one transaction: what it commits, and when.
use multi_agent_system.Base.{
  suc, ◌⊎◌, none, some, Bool, true, false, ◌&&◌, ◌≡◌, refl, ◌==◌, arith, Option-cases, Bool-cases,
  inl, inr, List, [], ◌∷◌, ◌++◌, find_first, str_eq, str_eq_iff,
}
use multi_agent_system.Exec.{Result, Result-cases, Error, ok, err, integrity_error}
use multi_agent_system.Persistence.{
  World, Database, GovernedActionRecord, AuditEventRecord, OutboxMessageRecord, admits_event,
  admits_action, admits_message, uuid4, now_utc,
}
use multi_agent_system.Schemas.{GovernedAction, AuditEventCreate, OutboxMessageCreate}
use multi_agent_system.Governance.Sql.{
  record_from_action, action_from_record, audit_record, outbox_record, row_of_key, load,
  get_by_idempotency, commit_proposal, or_integrity_error, return_winner, insert_proposal,
  return_or_insert, create_proposal,
}

-- The three rows of a proposal, added together.
abbrev pub with_proposal :
    GovernedActionRecord → AuditEventRecord → OutboxMessageRecord → Database → Database
with_proposal a e m db = record db {
  governed_actions = db.governed_actions ++ a ∷ [];
  audit_events = db.audit_events ++ e ∷ [];
  outbox_messages = db.outbox_messages ++ m ∷ [];
}

-- `datetime.now` and two calls of `uuid4`.
abbrev pub drawn : World → World
drawn w = (uuid4 (uuid4 (now_utc w).1).1).1

module _ (others : World → World) (a : GovernedAction) (ev : AuditEventCreate)
    (message : OutboxMessageCreate) (w : World) where
  -- The state in which the transaction commits.
  abbrev pub at_commit : World
  at_commit = others (drawn w)

  abbrev pub event_row : AuditEventRecord
  event_row =
      audit_record ev (w.host.random_uuids w.host.uuids_drawn) (w.host.clock w.host.clock_reads)

  abbrev pub message_row : OutboxMessageRecord
  message_row =
      outbox_record message (w.host.random_uuids (suc w.host.uuids_drawn))
        (w.host.clock w.host.clock_reads)

  abbrev admitted : Bool
  admitted =
      admits_action at_commit.database (record_from_action a)
      && admits_event at_commit.database event_row
      && admits_message at_commit.database message_row

  abbrev run : Result (GovernedAction × Bool) × World
  run = create_proposal others a ev message w

  -- What `create_proposal` comes to. `s` is the state in which it has read the existing action.
  pub data Case : Type 0 where
    repeats :
        (r : GovernedActionRecord) (b : GovernedAction)
        → row_of_key w a.tenant_id a.idempotency_key ≡ some r
        → action_from_record r ≡ ok b
        → run ≡ (ok (b, false), w)
        → Case
    loses :
        (r : GovernedActionRecord) (b : GovernedAction)
        → row_of_key w a.tenant_id a.idempotency_key ≡ none
        → admitted ≡ false
        → row_of_key at_commit a.tenant_id a.idempotency_key ≡ some r
        → action_from_record r ≡ ok b
        → run ≡ (ok (b, false), at_commit)
        → Case
    commits :
        row_of_key w a.tenant_id a.idempotency_key ≡ none
        → admitted ≡ true
        → run ≡ (
          ok (a, true),
          record at_commit {
            database =
                with_proposal (record_from_action a) event_row message_row at_commit.database;
          },
        )
        → Case
    unreadable : (e : Error) → run ≡ (err e, w) → Case
    fails :
        (e : Error)
        → row_of_key w a.tenant_id a.idempotency_key ≡ none
        → admitted ≡ false
        → run ≡ (err e, at_commit)
        → Case

  refused_cases : row_of_key w a.tenant_id a.idempotency_key ≡ none → admitted ≡ false → Case
  unfolding create_proposal get_by_idempotency load return_or_insert insert_proposal commit_proposal
      return_winner or_integrity_error
  refused_cases h unfit = elim (Option-cases (row_of_key at_commit a.tenant_id a.idempotency_key)) [
    | inl nobody ↦ fails integrity_error h unfit (ground arith)
    | inr (r, found) ↦ elim (Result-cases (action_from_record r)) [
      | inl (b, loaded) ↦ loses r b h unfit found loaded (ground arith)
      | inr (e, broken) ↦ fails e h unfit (ground arith)
    ]
  ]

  pub cases : Case
  unfolding create_proposal get_by_idempotency load return_or_insert insert_proposal commit_proposal
  cases = elim (Option-cases (row_of_key w a.tenant_id a.idempotency_key)) [
    | inl nobody ↦ elim (Bool-cases admitted) [
      | inl yes_admitted ↦ commits nobody yes_admitted (ground arith)
      | inr unfit ↦ refused_cases nobody unfit
    ]
    | inr (r, found) ↦ elim (Result-cases (action_from_record r)) [
      | inl (b, loaded) ↦ repeats r b found loaded (ground arith)
      | inr (e, broken) ↦ unreadable e (ground arith)
    ]
  ]

  row_key :
      (r : GovernedActionRecord) (b : GovernedAction) (rows : List GovernedActionRecord)
      → find_first
          (λ r. str_eq r.tenant_id a.tenant_id && r.idempotency_key == a.idempotency_key)
          rows
        ≡ some r
      → action_from_record r ≡ ok b
      → (b.tenant_id ≡ a.tenant_id) × (b.idempotency_key ≡ a.idempotency_key)
  unfolding action_from_record
  row_key r b [] h e = (ground arith, ground arith)
  row_key r b (x ∷ rows) h e =
      elim (Bool-cases (str_eq x.tenant_id a.tenant_id && x.idempotency_key == a.idempotency_key)) [
        | inl here ↦
            let same_tenant = (str_eq_iff x.tenant_id a.tenant_id).0 (ground arith) in
            let row : x ≡ r = ground arith in (ground arith, ground arith)
        | inr later ↦ row_key r b rows (ground arith) e
      ]

  -- An answer that reports an existing action with the key of `a`, or an error.
  abbrev pub IsOfOthers : Result (GovernedAction × Bool) → Type 0
  IsOfOthers (err e) = Unit
  IsOfOthers (ok (b, created)) =
      (created ≡ false) × (b.tenant_id ≡ a.tenant_id) × (b.idempotency_key ≡ a.idempotency_key)

  -- A proposal is committed as a whole or not at all, whatever other transactions commit in
  -- between: either the call reports the action given as new, and the action, its audit event and
  -- its outbox message are added to the database as the commit finds it, or it writes nothing and
  -- reports an error or the existing action of the same tenant and key.
  pub create_proposal_atomic :
      (run ≡ (
        ok (a, true),
        record at_commit {
          database = with_proposal (record_from_action a) event_row message_row at_commit.database;
        },
      ))
      ⊎ (((run.1 ≡ w) ⊎ (run.1 ≡ at_commit)) × IsOfOthers run.0)
  create_proposal_atomic = elim cases [
    | repeats r b found loaded eq ↦ inr (
        rw eq (
          inl refl,
          (let key = row_key r b w.database.governed_actions found loaded in (refl, key.0, key.1)),
        ))
    | loses r b fresh unfit found loaded eq ↦ inr (
        rw eq (
          inr refl,
          (let key = row_key r b at_commit.database.governed_actions found loaded in
              (refl, key.0, key.1)),
        ))
    | commits fresh fit eq ↦ inl eq
    | unreadable e eq ↦ inr (rw eq (inl refl, tt))
    | fails e fresh unfit eq ↦ inr (rw eq (inr refl, tt))
  ]
