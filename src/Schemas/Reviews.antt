-- ===== src/Schemas/Reviews.antt =====
-- packages/schemas/reviews.py and packages/model_gateway/base.py. A confidence is a float that the
-- program only takes the least of: it is counted in hundredths here.
use multi_agent_system.Base.{ℕ, String, List, Option, Bool, Uuid, DateTime}

pub data RiskCategory : Type 0 where
  security legal financial : RiskCategory

pub data Severity : Type 0 where
  low medium high critical : Severity

pub record Evidence : Type 0 where
  pub document_title : String
  pub quote : List ℕ
  pub source_uri : Option String

pub record Finding : Type 0 where
  pub id : Uuid
  pub category : RiskCategory
  pub severity : Severity
  pub title : String
  pub summary : String
  pub evidence : List Evidence
  pub remediation : String
  pub confidence : ℕ

pub data Decision : Type 0 where
  approve remediate escalate reject : Decision

pub record Recommendation : Type 0 where
  pub decision : Decision
  pub rationale : String
  pub required_actions : List String
  pub confidence : ℕ

pub record ReviewResult : Type 0 where
  pub review_id : Uuid
  pub case_id : Uuid
  pub findings : List Finding
  pub recommendation : Recommendation
  pub model_backend : String
  pub started_at : DateTime
  pub completed_at : DateTime

pub data EvidenceConfirmationDecision : Type 0 where
  confirm reject : EvidenceConfirmationDecision

pub record EvidenceConfirmation : Type 0 where
  pub decision : EvidenceConfirmationDecision
  pub comment : String

pub record ReviewExecutionStart : Type 0 where
  pub idempotency_key : Uuid
  pub require_evidence_confirmation : Bool

pub data ReviewExecutionStatus : Type 0 where
  running awaiting_input completed cancelled : ReviewExecutionStatus

pub record ReviewInterrupt : Type 0 where
  pub question : String
  pub finding_count : ℕ
  pub categories : List RiskCategory

pub record ReviewExecution : Type 0 where
  pub execution_id : Uuid
  pub case_id : Uuid
  pub status : ReviewExecutionStatus
  pub interrupt : Option ReviewInterrupt
  pub result : Option ReviewResult

pub data ModelTask : Type 0 where
  security_review legal_review financial_review synthesize : ModelTask
