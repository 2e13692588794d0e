-- ===== src/Graphs/State.antt =====
-- packages/graphs/supplier_review.py: `ReviewGraphState`, the updates that nodes return, and what a
-- checkpoint keeps. The JSON texts of the fields are read as the values that they encode.
use multi_agent_system.Base.{String, List, [], ◌∷◌, ◌++◌, Option, none, some, Bool, Uuid, DateTime}
use multi_agent_system.Schemas.{
  SupplierCase, Finding, Recommendation, EvidenceConfirmation, ReviewInterrupt,
}

pub record ReviewGraphState : Type 0 where
  pub tenant_id : String
  pub case_id : Uuid
  pub execution_id : Uuid
  pub supplier_case : SupplierCase
  pub findings : List Finding
  pub recommendation : Option Recommendation
  pub model_backend : String
  pub started_at : DateTime
  pub completed_at : Option DateTime
  pub require_evidence_confirmation : Bool
  pub evidence_confirmation : Option EvidenceConfirmation
  pub cancelled : Bool

-- The dictionary that a node returns, with one constructor for each set of keys.
pub data Updates : Type 0 where
  nothing : Updates
  new_findings : List Finding → Updates
  confirmation : EvidenceConfirmation → Bool → Option DateTime → Updates
  conclusion : Recommendation → DateTime → Updates

-- The reducer of `findings` is `operator.add`; other keys are replaced.
unfoldable pub with_updates : ReviewGraphState → Updates → ReviewGraphState
with_updates s nothing = s
with_updates s (new_findings fs) = record s { findings = s.findings ++ fs }
with_updates s (confirmation response cancelled at) = record s {
  evidence_confirmation = some response;
  cancelled = cancelled;
  completed_at = at;
}
with_updates s (conclusion r at) = record s { recommendation = some r; completed_at = some at }

-- What is to run next: the nodes behind START, those of them that have not returned after one has
-- raised, the node behind their join, that node again with the answer to its interrupt, the last
-- node, or none.
pub data Next : Type 0 where
  specialists unfinished evidence_confirmation synthesize end : Next
  awaiting : ReviewInterrupt → Next

pub record Checkpoint : Type 0 where
  pub values : ReviewGraphState
  pub next : Next

-- `aget_state`: `values` is empty for an unknown thread.
pub record StateSnapshot : Type 0 where
  pub values : Option ReviewGraphState
  pub interrupts : List ReviewInterrupt

abbrev interrupts_of : Next → List ReviewInterrupt
interrupts_of (awaiting r) = r ∷ []
interrupts_of _ = []

abbrev pub snapshot_of : Option Checkpoint → StateSnapshot
snapshot_of none = record { values = none; interrupts = [] }
snapshot_of (some c) = record { values = some c.values; interrupts = interrupts_of c.next }
