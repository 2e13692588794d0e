-- ===== src/Tests/Reviews.antt =====
-- The PostgreSQL case repository on a concrete case and a review with one finding.
use mathlib.Core.List
use mathlib.Core.List.Permᴰ
use multi_agent_system.Base.{List, [], ◌∷◌, none, ◌≡◌, refl}
use multi_agent_system.Exec.{ok}
use multi_agent_system.Persistence.{World, FindingRecord}
use multi_agent_system.Schemas.{SupplierCase, ReviewResult, Finding, RiskCategory, Severity}
use multi_agent_system.Cases.Sql.{save_review, get_review, admits_review, admits_findings}
use multi_agent_system.Cases.Findings.{IsArrangement, IsReading}
use multi_agent_system.Cases.Reviews.{save_review-get_review}
use multi_agent_system.Cases.Records.{create, get, admits_documents}
use multi_agent_system.Cases.Documents.{create-get}
use multi_agent_system.Tests.Fixtures.{world, supplier_case, review, quiet}

abbrev start : World
start = world [] []

abbrev finding : Finding
finding = record {
  id = 70;
  category = RiskCategory.security;
  severity = Severity.high;
  title = "Encryption";
  summary = "none";
  evidence = [];
  remediation = "encrypt";
  confidence = 80;
}

abbrev other_finding : Finding
other_finding = record finding { id = 71; title = "Passwords" }

abbrev as_stored : List FindingRecord → List FindingRecord
as_stored rows = rows

abbrev second_review : ReviewResult
second_review = record review { review_id = 8; findings = finding ∷ other_finding ∷ [] }

abbrev backwards : List FindingRecord → List FindingRecord
backwards = List.reverse

second_saved : (save_review as_stored quiet second_review start).0 ≡ ok second_review
unfolding save_review admits_review admits_findings
second_saved = refl

-- The database returns the rows from the last to the first.
backwards-IsArrangement : IsArrangement backwards
backwards-IsArrangement rows = Permᴰ.reverse rows

abbrev after_save : World
after_save = (save_review as_stored quiet second_review start).1

save_review-get_review_example :
    (second_review ≡ second_review)
    × ((read : ReviewResult) × IsReading read second_review
        × (get_review backwards 8 after_save ≡ (ok read, after_save))
        × (save_review backwards quiet second_review after_save ≡ (ok read, after_save)))
save_review-get_review_example =
    save_review-get_review as_stored backwards quiet quiet second_review second_review second_review
      start backwards-IsArrangement refl refl tt second_saved

abbrev new_case : SupplierCase
new_case = record supplier_case {
  id = 6;
  documents =
      record { title = "Policy"; content = "text"; source_uri = none }
      ∷ record { title = "Accounts"; content = "more"; source_uri = none }
      ∷ [];
}

case_created : (create new_case start).0 ≡ ok new_case
unfolding create admits_documents
case_created = refl

create-get_example :
    (new_case ≡ new_case)
    × (get 6 (create new_case start).1 ≡ (ok new_case, (create new_case start).1))
create-get_example = create-get new_case new_case start tt case_created
