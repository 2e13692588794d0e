-- ===== src/ModelGateway/Rules.antt =====
-- packages/model_gateway/deterministic.py: the rules of `DeterministicBackend`, and the operations
-- on `str` that they are matched with. A text that is searched is the list of its code points.
use Prim.Native.Char.{code}
use Prim.Native.String.{String}
use multi_agent_system.Base.{ℕ, List, [], ◌∷◌, ◌++◌, Bool, true, false, ◌&&◌, ◌||◌, ◌==◌}
use multi_agent_system.Schemas.{RiskCategory, Severity}

abbrev pub Text : Type 0
Text = List ℕ

-- The code points of a text.
abbrev pub codes : String → Text
codes String.[] = []
codes (String.◌∷◌ c s) = code c ∷ codes s

unfoldable pub begins_with : Text → Text → Bool
begins_with s [] = true
begins_with [] (d ∷ t) = false
begins_with (c ∷ s) (d ∷ t) = c == d && begins_with s t

-- `term in text`
unfoldable pub contains : Text → Text → Bool
unfolding begins_with
contains [] term = begins_with [] term
contains (c ∷ s) term = begins_with (c ∷ s) term || contains s term

-- `"\n".join(texts)`
unfoldable pub join : List Text → Text
join [] = []
join (t ∷ []) = t
join (t ∷ u ∷ ts) = t ++ 10 ∷ join (u ∷ ts)

pub record Rule : Type 0 where
  pub terms : List Text
  pub absence : Bool
  pub severity : Severity
  pub title : String
  pub summary : String
  pub remediation : String

abbrev pub shared_credentials : Rule
shared_credentials = record {
  terms = codes "shared credentials" ∷ codes "shared password" ∷ [];
  absence = false;
  severity = Severity.critical;
  title = "Shared credentials are permitted";
  summary = "The supplied security material permits shared credentials.";
  remediation = "Require named accounts and enforced multi-factor authentication.";
}

abbrev pub missing_assurance : Rule
missing_assurance = record {
  terms = codes "soc 2" ∷ codes "iso 27001" ∷ [];
  absence = true;
  severity = Severity.medium;
  title = "Independent security assurance is missing";
  summary = "No SOC 2 or ISO 27001 assurance was found.";
  remediation = "Obtain a current SOC 2 Type II report or ISO 27001 certificate.";
}

abbrev pub unlimited_liability : Rule
unlimited_liability = record {
  terms = codes "unlimited liability" ∷ [];
  absence = false;
  severity = Severity.high;
  title = "Unlimited liability clause";
  summary = "The contract includes an unlimited liability obligation.";
  remediation = "Negotiate a proportionate aggregate liability cap.";
}

abbrev pub automatic_renewal : Rule
automatic_renewal = record {
  terms = codes "automatic renewal" ∷ codes "auto-renewal" ∷ [];
  absence = false;
  severity = Severity.medium;
  title = "Automatic renewal requires control";
  summary = "The agreement renews automatically without an explicit review gate.";
  remediation = "Add a renewal notice and owner review requirement.";
}

abbrev pub financial_continuity : Rule
financial_continuity = record {
  terms = codes "going concern" ∷ codes "negative cash flow" ∷ [];
  absence = false;
  severity = Severity.high;
  title = "Financial continuity concern";
  summary = "The financial evidence contains a business continuity warning.";
  remediation = "Obtain current financial statements and a continuity mitigation plan.";
}

unfoldable pub rules : RiskCategory → List Rule
rules RiskCategory.security = shared_credentials ∷ missing_assurance ∷ []
rules RiskCategory.legal = unlimited_liability ∷ automatic_renewal ∷ []
rules RiskCategory.financial = financial_continuity ∷ []
