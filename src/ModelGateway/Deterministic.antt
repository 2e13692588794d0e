-- ===== src/ModelGateway/Deterministic.antt =====
-- packages/model_gateway/deterministic.py: `DeterministicBackend`. A text that is searched is the
-- list of its code points; `lower` has the lower-case form of each, which is no more than
-- `str.lower` but for the final sigma. The JSON texts of pydantic and the decimal form of a number
-- are parameters.
use Prim.Native.String.{String, ◌++◌ as append}
use multi_agent_system.Base.{
  ℕ, List, [], ◌∷◌, ◌++◌, map, Option, none, some, Bool, true, false, ◌||◌, min, any, take, length,
  find_first, if◌then◌else◌,
}
use multi_agent_system.Exec.{pure}
use multi_agent_system.Persistence.{UuidLibrary}
use multi_agent_system.Schemas.{
  DocumentInput, Decision, Evidence, Finding, ModelTask, Recommendation, RiskCategory, Severity,
}
use multi_agent_system.Cases.Sql.{category_value}
use multi_agent_system.ModelGateway.Rules.{Text, codes, contains, join, Rule, rules}
use multi_agent_system.Graphs.Nodes.{ModelBackend, RequestContext, sorted_categories}

-- What `model_dump_json` and the formatting of an integer give.
pub record Printers : Type 0 where
  pub findings : List Finding → String
  pub recommendation : Recommendation → String
  pub decimal : ℕ → String

-- `context.get("documents", [])`, `context.get("case_id")` and `context.get("findings", [])`.
abbrev pub documents_of : RequestContext → List DocumentInput
documents_of (RequestContext.of_case i name documents) = documents
documents_of (RequestContext.of_findings findings answer) = []

abbrev pub case_text : UuidLibrary → RequestContext → String
case_text u (RequestContext.of_case i name documents) = u.str i
case_text u (RequestContext.of_findings findings answer) = "None"

abbrev pub findings_of : RequestContext → List Finding
findings_of (RequestContext.of_case i name documents) = []
findings_of (RequestContext.of_findings findings answer) = findings

-- `severity is other`, of enum members.
abbrev pub same_severity : Severity → Severity → Bool
same_severity Severity.low Severity.low = true
same_severity Severity.medium Severity.medium = true
same_severity Severity.high Severity.high = true
same_severity Severity.critical Severity.critical = true
same_severity _ _ = false

-- `severity in {finding.severity ...}`
abbrev pub has_severity : Severity → List Finding → Bool
has_severity s findings = any (λ f. same_severity f.severity s) findings

module _ (u : UuidLibrary) (lower : ℕ → Text) (printers : Printers) where
  -- `text.lower()`
  unfoldable pub lowered : Text → Text
  lowered [] = []
  lowered (c ∷ t) = lower c ++ lowered t

  unfoldable pub find_evidence : List DocumentInput → Text → List Evidence
  unfolding lowered contains
  find_evidence [] term = []
  find_evidence (d ∷ ds) term =
      let rest = find_evidence ds term in
      let e : Evidence = record {
        document_title = d.title;
        quote = take 1000 (codes d.content);
        source_uri = d.source_uri;
      } in
      if contains (lowered (codes d.content)) term then e ∷ [] else rest

  abbrev pub confidence_in : List Evidence → ℕ
  confidence_in [] = 82
  confidence_in (e ∷ es) = 96

  unfoldable pub combined : List DocumentInput → Text
  unfolding lowered join
  combined documents = lowered (join (map (λ d. codes d.content) documents))

  unfoldable pub finding_of : String → RiskCategory → Rule → List Evidence → Finding
  unfolding category_value
  finding_of case_id category rule evidence = record {
    id =
        u.uuid5 u.namespace_url
          (append case_id (append ":" (append (category_value category) (append ":" rule.title))));
    category = category;
    severity = rule.severity;
    title = rule.title;
    summary = rule.summary;
    evidence = evidence;
    remediation = rule.remediation;
    confidence = confidence_in evidence;
  }

  -- One pass of the loop over the rules: nothing, or one finding.
  unfoldable pub apply_rule :
      String → RiskCategory → List DocumentInput → Rule → Option Text → List Finding
  unfolding find_evidence finding_of
  apply_rule case_id category documents rule none =
      if rule.absence then finding_of case_id category rule [] ∷ [] else []
  apply_rule case_id category documents rule (some term) =
      if rule.absence
      then []
      else finding_of case_id category rule (find_evidence documents term) ∷ []

  -- `next((term for term in rule["terms"] if term in combined), None)`
  abbrev pub matched : List DocumentInput → Rule → Option Text
  matched documents rule = find_first (contains (combined documents)) rule.terms

  unfoldable pub apply_rules : String → RiskCategory → List DocumentInput → List Rule → List Finding
  unfolding combined contains apply_rule
  apply_rules case_id category documents [] = []
  apply_rules case_id category documents (r ∷ rs) =
      apply_rule case_id category documents r (matched documents r)
      ++ apply_rules case_id category documents rs

  unfoldable pub review : RiskCategory → RequestContext → List Finding
  unfolding rules apply_rules
  review category context =
      apply_rules (case_text u context) category (documents_of context) (rules category)

  unfoldable pub decision_of : List Finding → Decision
  decision_of findings =
      if has_severity Severity.critical findings
      then Decision.escalate
      else if has_severity Severity.high findings || has_severity Severity.medium findings
      then Decision.remediate
      else Decision.approve

  -- `min((finding.confidence ...), default=0.9)`
  unfoldable pub least_confidence : List Finding → ℕ
  least_confidence [] = 90
  least_confidence (f ∷ []) = f.confidence
  least_confidence (f ∷ g ∷ fs) = min f.confidence (least_confidence (g ∷ fs))

  unfoldable pub rationale_for : List Finding → String
  rationale_for [] = "No material risks were identified in the supplied evidence."
  rationale_for (f ∷ fs) = append "The review identified " (
      append (printers.decimal (length (f ∷ fs))) (
        append " finding(s) across "
          (append (printers.decimal (length (sorted_categories (f ∷ fs)))) " risk domain(s).")))

  unfoldable pub synthesize : List Finding → Recommendation
  unfolding decision_of least_confidence rationale_for
  synthesize findings = record {
    decision = decision_of findings;
    rationale = rationale_for findings;
    required_actions = map (λ f. f.remediation) findings;
    confidence = least_confidence findings;
  }

  unfoldable pub response : ModelTask → RequestContext → String
  unfolding review synthesize
  response ModelTask.synthesize context = printers.recommendation (synthesize (findings_of context))
  response ModelTask.security_review context =
      printers.findings (review RiskCategory.security context)
  response ModelTask.legal_review context = printers.findings (review RiskCategory.legal context)
  response ModelTask.financial_review context =
      printers.findings (review RiskCategory.financial context)

  unfoldable pub deterministic_backend : ModelBackend
  unfolding response
  deterministic_backend = record {
    name = "deterministic";
    generate = λ request. pure (response request.task request.context);
  }
