-- ===== src/Tests/Container.antt =====
-- A container over the in-memory case repository, and a model that answers or fails.
use multi_agent_system.Base.{[], ◌∷◌, true, nat_eq}
use multi_agent_system.Base.Dict
use multi_agent_system.Exec.{ok, raise, pure, runtime_error}
use multi_agent_system.Persistence.{World}
use multi_agent_system.Schemas.{
  Role, Principal, Finding, RiskCategory, Severity, Recommendation, EvidenceConfirmation,
  EvidenceConfirmationDecision, ReviewExecutionStart,
}
use multi_agent_system.Cases.Interface.{in_memory_case_repository}
use multi_agent_system.Graphs.Nodes.{ModelBackend, Parsers}
use multi_agent_system.Api.Container.{ApplicationContainer}
use multi_agent_system.Tests.Fixtures.{world, supplier_case, review, person}

abbrev pub container : ApplicationContainer
container = record {
  retrieval_limit = 5;
  cases = in_memory_case_repository;
  workflow = record {
    execution_id_for = λ tenant case key. 40;
    run = λ c. raise runtime_error;
    start = λ c i required. raise runtime_error;
    get_execution = λ c i. raise runtime_error;
    resume = λ c i a. raise runtime_error;
  };
  retrieval = record {
    index_case = λ c. raise runtime_error;
    search = λ case_id query limit. pure [];
  };
  authenticator = record { authenticate = λ headers. pure (person "ann" Role.analyst) };
  governance = record {
    propose = λ c r request p. raise runtime_error;
    decide = λ i request p. raise runtime_error;
    get = λ i p. raise runtime_error;
  };
}

abbrev pub known : World
known =
    let empty = world [] [] in
    record empty {
      case_store = record empty.case_store { cases = Dict.put Dict.empty 5 supplier_case };
    }

abbrev pub analyst : Principal
analyst = person "ann" Role.analyst

abbrev pub start_request : ReviewExecutionStart
start_request = record { idempotency_key = 9; require_evidence_confirmation = true }

abbrev pub confirmation : EvidenceConfirmation
confirmation = record { decision = EvidenceConfirmationDecision.confirm; comment = "fine" }

abbrev pub finding : Finding
finding = record {
  id = 3;
  category = RiskCategory.legal;
  severity = Severity.low;
  title = "Terms";
  summary = "Terms are usual";
  evidence = [];
  remediation = "None";
  confidence = 90;
}

abbrev pub recommendation : Recommendation
recommendation = review.recommendation

abbrev pub parsers : Parsers
parsers = record { findings = λ raw. ok (finding ∷ []); recommendation = λ raw. ok recommendation }

abbrev pub answering : ModelBackend
answering = record { name = "answering"; generate = λ request. pure "{}" }

abbrev pub failing : ModelBackend
failing = record { name = "failing"; generate = λ request. raise runtime_error }
