-- ===== src/Cases/Sql.antt =====
-- packages/persistence/repositories.py: `SqlAlchemyCaseRepository`. A transaction is one step; what
-- other transactions commit before the flush of `save_review` is the argument `others`.
use multi_agent_system.Base.{
  String, List, [], ◌∷◌, ◌++◌, map, Option, none, some, Bool, true, false, not, ◌&&◌, ◌==◌, Uuid,
  str_eq, select, any, find_first, is_some, if◌then◌else◌,
}
use multi_agent_system.Exec.{
  Exec, ok, err, gets, or_raise, modify, ◌>>=◌, ◌>>◌, review_not_found, integrity_error,
  value_error,
}
use multi_agent_system.Persistence.{World, Database, ReviewRunRecord, FindingRecord, has_case}
use multi_agent_system.Schemas.{CaseStatus, ReviewResult, Finding, RiskCategory, Severity}

-- `status.value`, `category.value`, `severity.value`, and the members with a value.
unfoldable pub case_status_value : CaseStatus → String
case_status_value CaseStatus.new = "new"
case_status_value CaseStatus.in_review = "in_review"
case_status_value CaseStatus.pending_approval = "pending_approval"
case_status_value CaseStatus.approved = "approved"
case_status_value CaseStatus.rejected = "rejected"
case_status_value CaseStatus.review_failed = "review_failed"

unfoldable pub case_status_of : String → Option CaseStatus
case_status_of s =
    if str_eq s "new"
    then some CaseStatus.new
    else if str_eq s "in_review"
    then some CaseStatus.in_review
    else if str_eq s "pending_approval"
    then some CaseStatus.pending_approval
    else if str_eq s "approved"
    then some CaseStatus.approved
    else if str_eq s "rejected"
    then some CaseStatus.rejected
    else if str_eq s "review_failed"
    then some CaseStatus.review_failed
    else none

unfoldable pub category_value : RiskCategory → String
category_value RiskCategory.security = "security"
category_value RiskCategory.legal = "legal"
category_value RiskCategory.financial = "financial"

unfoldable pub category_of : String → Option RiskCategory
category_of s =
    if str_eq s "security"
    then some RiskCategory.security
    else if str_eq s "legal"
    then some RiskCategory.legal
    else if str_eq s "financial"
    then some RiskCategory.financial
    else none

unfoldable pub severity_value : Severity → String
severity_value Severity.low = "low"
severity_value Severity.medium = "medium"
severity_value Severity.high = "high"
severity_value Severity.critical = "critical"

unfoldable pub severity_of : String → Option Severity
severity_of s =
    if str_eq s "low"
    then some Severity.low
    else if str_eq s "medium"
    then some Severity.medium
    else if str_eq s "high"
    then some Severity.high
    else if str_eq s "critical"
    then some Severity.critical
    else none

unfoldable pub review_row : ReviewResult → ReviewRunRecord
review_row r = record {
  id = r.review_id;
  case_id = r.case_id;
  model_backend = r.model_backend;
  decision = some r.recommendation.decision;
  rationale = some r.recommendation.rationale;
  required_actions_json = r.recommendation.required_actions;
  confidence = some r.recommendation.confidence;
  started_at = r.started_at;
  completed_at = some r.completed_at;
}

unfoldable pub finding_row : Uuid → Finding → FindingRecord
unfolding category_value severity_value
finding_row review_id f = record {
  id = f.id;
  review_run_id = review_id;
  category = category_value f.category;
  severity = severity_value f.severity;
  title = f.title;
  summary = f.summary;
  evidence_json = f.evidence;
  remediation = f.remediation;
  confidence = f.confidence;
}

abbrev with_finding : FindingRecord → RiskCategory → Severity → Finding
with_finding r category severity = record {
  id = r.id;
  category = category;
  severity = severity;
  title = r.title;
  summary = r.summary;
  evidence = r.evidence_json;
  remediation = r.remediation;
  confidence = r.confidence;
}

unfoldable pub finding_from_row : FindingRecord → Option Finding
unfolding category_of severity_of
finding_from_row r = elim (category_of r.category) [
  | none ↦ none
  | some category ↦ elim (severity_of r.severity) [
    | none ↦ none
    | some severity ↦ some (with_finding r category severity)
  ]
]

unfoldable pub findings_from_rows : List FindingRecord → Option (List Finding)
findings_from_rows [] = some []
findings_from_rows (r ∷ rows) = elim (finding_from_row r) [
  | none ↦ none
  | some f ↦ elim (findings_from_rows rows) [ none ↦ none | some fs ↦ some (f ∷ fs) ]
]

-- `rationale or ""`
abbrev or_blank : Option String → String
or_blank none = ""
or_blank (some s) = s

-- `_review_from_records`, when no column that it checks is null and the findings can be read.
abbrev complete : ReviewRunRecord → List Finding → Option ReviewResult
complete r findings = elim r.decision [
  | none ↦ none
  | some decision ↦ elim r.completed_at [
    | none ↦ none
    | some completed_at ↦ elim r.confidence [
      | none ↦ none
      | some confidence ↦ some (record {
        review_id = r.id;
        case_id = r.case_id;
        findings = findings;
        recommendation = record {
          decision = decision;
          rationale = or_blank r.rationale;
          required_actions = r.required_actions_json;
          confidence = confidence;
        };
        model_backend = r.model_backend;
        started_at = r.started_at;
        completed_at = completed_at;
      })
    ]
  ]
]

unfoldable pub review_from_records : ReviewRunRecord → List FindingRecord → Option ReviewResult
review_from_records r rows = elim (findings_from_rows rows) [
  | none ↦ none
  | some findings ↦ complete r findings
]

abbrev pub review_of : World → Uuid → Option ReviewRunRecord
review_of w i = find_first (λ r. r.id == i) w.database.review_runs

abbrev pub findings_of : World → Uuid → List FindingRecord
findings_of w i = select (λ f. f.review_run_id == i) w.database.findings

-- The statement for the findings has no ORDER BY: the database returns the rows in some order,
-- which is the argument `arrange`.
unfoldable pub get_review :
    (List FindingRecord → List FindingRecord) → Uuid → Exec World ReviewResult
get_review arrange review_id = do
  r ← or_raise (← gets (λ w. review_of w review_id)) review_not_found
  rows ← gets (λ w. arrange (findings_of w r.id))
  or_raise (review_from_records r rows) value_error

-- What the flush of the review and the commit of its findings check.
unfoldable pub admits_review : Database → ReviewResult → Bool
admits_review db r = not (any (λ x. x.id == r.review_id) db.review_runs) && has_case db r.case_id

unfoldable pub admits_findings : List FindingRecord → List Finding → Bool
admits_findings rows [] = true
admits_findings rows (f ∷ fs) =
    not (any (λ r. r.id == f.id) rows)
    && not (any (λ g. g.id == f.id) fs)
    && admits_findings rows fs

unfoldable pub with_review : ReviewResult → World → World
with_review r w = record w {
  database = record w.database {
    review_runs = w.database.review_runs ++ review_row r ∷ [];
    findings = w.database.findings ++ map (finding_row r.review_id) r.findings;
  };
}

-- The flush of the parent is outside the handler: a collision there is not caught.
unfoldable pub insert_review :
    (List FindingRecord → List FindingRecord) → ReviewResult → Exec World ReviewResult
unfolding with_review
insert_review arrange r w =
    if admits_review w.database r
    then (if admits_findings w.database.findings r.findings
        then (ok r, with_review r w)
        else get_review arrange r.review_id w)
    else (err integrity_error, w)

unfoldable pub save_new :
    (List FindingRecord → List FindingRecord)
    → (World → World)
    → Bool
    → ReviewResult
    → Exec World ReviewResult
unfolding insert_review
save_new arrange others true r = get_review arrange r.review_id
save_new arrange others false r = do modify others; insert_review arrange r

unfoldable pub save_review :
    (List FindingRecord → List FindingRecord)
    → (World → World)
    → ReviewResult
    → Exec World ReviewResult
unfolding save_new
save_review arrange others r = do
  save_new arrange others (← gets (λ w. is_some (review_of w r.review_id))) r
