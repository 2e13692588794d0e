-- ===== src/Tests/Models.antt =====
-- The deterministic backend on a concrete case.
use multi_agent_system.Base.{ℕ, [], ◌∷◌, none, true, ◌≡◌, map, any, ◌==◌, ◌≤◌, All}
use multi_agent_system.Schemas.{DocumentInput, Decision, Finding, Severity}
use multi_agent_system.Graphs.Nodes.{RequestContext}
use multi_agent_system.ModelGateway.Rules.{Text}
use multi_agent_system.ModelGateway.Deterministic.{Printers, synthesize}
use multi_agent_system.ModelGateway.Synthesis.{decision_for, worst, synthesize-worst}
use multi_agent_system.Tests.Fixtures.{library}
use multi_agent_system.Tests.Container.{finding}

-- The texts below are in lower case where a rule looks.
abbrev lower : ℕ → Text
lower c = c ∷ []

abbrev printers : Printers
printers = record { findings = λ fs. "[]"; recommendation = λ r. "{}"; decimal = λ n. "2" }

abbrev contract : DocumentInput
contract = record { title = "Contract"; content = "There is automatic renewal."; source_uri = none }

abbrev context : RequestContext
context = RequestContext.of_case 5 "Supplier" (contract ∷ [])

abbrev severe : Finding
severe = record finding { severity = Severity.high; confidence = 82 }

synthesize-worst_example :
    ((synthesize library lower printers (finding ∷ severe ∷ [])).decision
      ≡ decision_for (worst (finding ∷ severe ∷ [])))
    × ((synthesize library lower printers (finding ∷ severe ∷ [])).required_actions
        ≡ map (λ x. x.remediation) (finding ∷ severe ∷ []))
    × All
        (λ x. (synthesize library lower printers (finding ∷ severe ∷ [])).confidence ≤ x.confidence)
        (finding ∷ severe ∷ [])
    × (any
          (λ x.
            x.confidence == (synthesize library lower printers (finding ∷ severe ∷ [])).confidence)
          (finding ∷ severe ∷ [])
        ≡ true)
    × ((synthesize library lower printers []).decision ≡ Decision.approve)
    × ((synthesize library lower printers []).confidence ≡ 90)
synthesize-worst_example = synthesize-worst library lower printers finding (severe ∷ [])
