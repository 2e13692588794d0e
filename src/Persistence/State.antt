-- ===== src/Persistence/State.antt =====
-- The state that the processes share: the two in-memory repositories, the database, the receipts
-- of the in-memory supplier system, the latest checkpoint of each thread of the review graph, and
-- what `uuid4` and `datetime.now` will return.
use multi_agent_system.Base.{ℕ, suc, String, List, Uuid, DateTime}
use multi_agent_system.Base.Dict
use multi_agent_system.Base.Dict.{Dict}
use multi_agent_system.Exec.{Exec, ok}
use multi_agent_system.Schemas.{
  SupplierCase, ReviewResult, AuditEvent, GovernedAction, ExecutionReceipt,
}
use multi_agent_system.Graphs.State.{Checkpoint}
use multi_agent_system.Persistence.Models.{Database, empty_database}

-- The fields of `InMemoryCaseRepository`.
pub record CaseStore : Type 0 where
  pub cases : Dict Uuid SupplierCase
  pub reviews : Dict Uuid (List ReviewResult)
  pub reviews_by_id : Dict Uuid ReviewResult
  pub events : Dict Uuid (List AuditEvent)

-- The fields of `InMemoryActionRepository`.
pub record ActionStore : Type 0 where
  pub actions : Dict Uuid GovernedAction
  pub idempotency : Dict (String × ℕ) Uuid

-- The results of `uuid4()` and `datetime.now(UTC)`, and how many have been drawn.
pub record Host : Type 0 where
  pub random_uuids : ℕ → Uuid
  pub clock : ℕ → DateTime
  pub uuids_drawn : ℕ
  pub clock_reads : ℕ

pub record World : Type 0 where
  pub case_store : CaseStore
  pub action_store : ActionStore
  pub database : Database
  pub receipts : Dict Uuid ExecutionReceipt
  pub checkpoints : Dict Uuid Checkpoint
  pub host : Host

-- `uuid4()`
abbrev pub uuid4 : Exec World Uuid
uuid4 w = (
  ok (w.host.random_uuids w.host.uuids_drawn),
  record w { host = record w.host { uuids_drawn = suc w.host.uuids_drawn } },
)

-- `datetime.now(UTC)`
abbrev pub now_utc : Exec World DateTime
now_utc w = (
  ok (w.host.clock w.host.clock_reads),
  record w { host = record w.host { clock_reads = suc w.host.clock_reads } },
)

-- `uuid5`, and the text forms of an identifier.
pub record UuidLibrary : Type 0 where
  pub namespace_url : Uuid
  pub uuid5 : Uuid → String → Uuid
  pub str : Uuid → String
  pub hex : Uuid → String

abbrev pub empty_world : (ℕ → Uuid) → (ℕ → DateTime) → World
empty_world random_uuids clock = record {
  case_store = record {
    cases = Dict.empty;
    reviews = Dict.empty;
    reviews_by_id = Dict.empty;
    events = Dict.empty;
  };
  action_store = record { actions = Dict.empty; idempotency = Dict.empty };
  database = empty_database;
  receipts = Dict.empty;
  checkpoints = Dict.empty;
  host = record { random_uuids = random_uuids; clock = clock; uuids_drawn = 0; clock_reads = 0 };
}
