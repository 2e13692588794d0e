-- ===== src/Lib.antt =====
-- A verification library for the supplier risk platform: the API and the packages behind it that
-- review a supplier, propose a decision, have it approved by another person and carry it out.
--
-- How the parts interact: packages/governance/service.py enforces who may propose, decide and
-- execute an action. It keeps actions through a repository of packages/governance/repositories.py,
-- in memory or in PostgreSQL. The PostgreSQL repository writes an outbox message in the transaction
-- of each proposal; packages/outbox delivers these messages, under leases, to an approval workflow
-- of packages/workflows/approvals.py. Cases, reviews and the audit trail are kept by the
-- repositories of packages/persistence/repositories.py. The routes of apps/api/main.py compose these
-- parts with the review graph of packages/graphs/supplier_review.py, in which three specialists report
-- findings, an analyst may be asked to confirm them, and a recommendation is made of them, by a model
-- behind packages/model_gateway. packages/retrieval cuts the documents of a case into chunks.
--
-- Files:
--   Base         names of the library, Boolean tests, lists, dictionaries, rows with distinct keys
--   Exec         the exceptions, results, and the monad of state and exceptions
--   Schemas      packages/schemas: the data that the packages exchange
--   Persistence  packages/persistence/models.py: the tables and their constraints; the shared state
--   Governance   packages/governance: Interface has the protocols, Laws the contract of an action
--                repository, Memory and Sql the two repositories, Actions and Service the service
--   Outbox       packages/outbox: Repository and Dispatcher, and what holds of leases and deliveries
--   Cases        packages/persistence/repositories.py: Memory is the repository in memory with its
--                Laws, Sql (reviews) and Records (cases, audit events) the one in PostgreSQL, Reviews
--                with Findings, and Documents, what is read back from it
--   Graphs       packages/graphs: State and Nodes have the state and the nodes of the review graph, Steps
--                its edges, Engine what is relied on of LangGraph, Workflow the methods; Invariant,
--                Answers and Consistent what holds of each checkpoint, Completes, Ends and Liveness
--                how a review ends, Failures what is left otherwise
--   Api          apps/api: Container has the collaborators, Guards what the handlers share, Reviews,
--                Executions and Evidence the handlers; Access is about who is answered, Created, Trail,
--                Persist and Settled about what is written, Failed about a review that failed to start
--   ModelGateway packages/model_gateway/deterministic.py: Rules and Deterministic are the offline backend,
--                Search and Findings about what its findings cite, Synthesis about its recommendation
--   Retrieval    packages/retrieval/chunking.py: Text has the operations on text, Chunking the chunker;
--                Progress is about its loop, Bounds about the lengths, Chunks about the whole
--   Workflows    packages/workflows/approvals.py: the local and the Step Functions adapter
--   Tests        concrete states, and the theorems applied to them
--
-- How the code is read: a method is a function from the state to a result and a state, `Exec World`.
-- Exceptions are values of `Error`; what they carry besides their class is left out, except for the
-- codes that the program inspects. Identifiers are numbers; uuid4 and datetime.now take the next value
-- of two streams in the state; uuid5 and the text forms of identifiers are a parameter. A transaction
-- is one step. Between the steps of one call other requests may run: the argument `others`, of which
-- a theorem assumes at most that these requests follow the same policy. Rows that another transaction
-- holds locked (SKIP LOCKED) are the argument `held`. LangGraph is a parameter: `Engine.IsDurable` states
-- its documented behaviour by the steps that the edges of the graph allow, and Tests.SequentialEngine
-- is an engine that has it. A handler of the API is a function of the principal that FastAPI has
-- resolved; an `HTTPException` is the error with its status code. Times are microseconds since a fixed
-- origin, and differences of times are natural numbers. A confidence is counted in hundredths. A text that the program only compares is a native string, and one that it walks is the list of its
-- code points. The loop of the chunker runs on fuel, for which two units for each character of a
-- paragraph and one for each paragraph are enough (Retrieval.Chunks); every other loop is over a list.
--
-- Not modelled: the other entry points, embeddings and vector search, authentication, the model backends
-- that call a service, migrations, settings, and the libraries below them.
pub mod Base
pub mod Exec
pub mod Schemas
pub mod Persistence
pub mod Retrieval
pub mod Governance
pub mod ModelGateway
pub mod Outbox
pub mod Cases
pub mod Api
pub mod Graphs
pub mod Workflows
pub mod Tests
