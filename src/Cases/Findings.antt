-- ===== src/Cases/Findings.antt =====
-- `SqlAlchemyCaseRepository`: the findings of a review, read in whatever order the database
-- returns them.
use mathlib.Core.Path.{subst}
use mathlib.Core.List.{Permᴰ}
use mathlib.Core.List.Permᴰ
use multi_agent_system.Base.{
  List, [], ◌∷◌, map, some, ◌≡◌, refl, ap, ◌∙◌, arith, inl, inr, Option-cases, Uuid,
}
use multi_agent_system.Persistence.{FindingRecord}
use multi_agent_system.Schemas.{Finding, ReviewResult, RiskCategory, Severity}
use multi_agent_system.Cases.Sql.{
  category_value, category_of, severity_value, severity_of, finding_row, finding_from_row,
  findings_from_rows, review_row, review_from_records,
}

category_of-category_value : (c : RiskCategory) → category_of (category_value c) ≡ some c
unfolding category_of category_value
category_of-category_value RiskCategory.security = refl
category_of-category_value RiskCategory.legal = refl
category_of-category_value RiskCategory.financial = refl

severity_of-severity_value : (s : Severity) → severity_of (severity_value s) ≡ some s
unfolding severity_of severity_value
severity_of-severity_value Severity.low = refl
severity_of-severity_value Severity.medium = refl
severity_of-severity_value Severity.high = refl
severity_of-severity_value Severity.critical = refl

finding_from_row-finding_row :
    (i : Uuid) (f : Finding) → finding_from_row (finding_row i f) ≡ some f
unfolding finding_from_row finding_row
finding_from_row-finding_row i f =
    let category = category_of-category_value f.category in
    let severity = severity_of-severity_value f.severity in ground arith

findings_from_rows-map :
    (i : Uuid) (fs : List Finding) → findings_from_rows (map (finding_row i) fs) ≡ some fs
unfolding findings_from_rows
findings_from_rows-map i [] = refl
findings_from_rows-map i (f ∷ fs) =
    let first = finding_from_row-finding_row i f in
    let rest = findings_from_rows-map i fs in ground arith

-- Rows that can be read: the first one and the others.
read_first :
    (r : FindingRecord) (rows : List FindingRecord) (fs : List Finding)
    → findings_from_rows (r ∷ rows) ≡ some fs
    → (f : Finding) × (gs : List Finding) × (finding_from_row r ≡ some f)
      × (findings_from_rows rows ≡ some gs)
      × (f ∷ gs ≡ fs)
unfolding findings_from_rows
read_first r rows fs h = elim (Option-cases (finding_from_row r)) [
  | inl unreadable ↦ absurd (ground arith)
  | inr (f, first) ↦ elim (Option-cases (findings_from_rows rows)) [
    | inl unreadable ↦ absurd (ground arith)
    | inr (gs, rest) ↦ (f, gs, first, rest, ground arith)
  ]
]

read_both :
    (r : FindingRecord) (rows : List FindingRecord) (f : Finding) (fs : List Finding)
    → finding_from_row r ≡ some f
    → findings_from_rows rows ≡ some fs
    → findings_from_rows (r ∷ rows) ≡ some (f ∷ fs)
unfolding findings_from_rows
read_both r rows f fs first rest = ground arith

-- The same rows in another order are the same findings in another order.
reordered :
    {rows rows' : List FindingRecord} (fs : List Finding)
    → Permᴰ rows' rows
    → findings_from_rows rows ≡ some fs
    → (fs' : List Finding) × (findings_from_rows rows' ≡ some fs') × Permᴰ fs' fs
reordered fs Permᴰ.nil h = (fs, h, Permᴰ.refl fs)
reordered fs (Permᴰ.cons {a = a} {b = b} {l₁ = xs} {l₂ = ys} same p) h =
    let (f, gs, first, rest, whole) = read_first b ys fs h in
    let (gs', rest', q) = reordered gs p rest in
    (
      f ∷ gs',
      read_both a xs f gs' (ap finding_from_row same ∙ first) rest',
      subst (λ l. Permᴰ (f ∷ gs') l) whole (Permᴰ.cons refl q),
    )
reordered fs (Permᴰ.swap {a = a} {b = b} {a' = a'} {b' = b'} {l = l} same same') h =
    let (f, gs, first, rest, whole) = read_first a' (b' ∷ l) fs h in
    let (g, hs, second, tail, whole') = read_first b' l gs rest in
    (
      g ∷ f ∷ hs,
      read_both a (b ∷ l) g (f ∷ hs) (ap finding_from_row same ∙ second)
          (read_both b l f hs (ap finding_from_row same' ∙ first) tail),
      subst (λ x. Permᴰ (g ∷ f ∷ hs) x) (ap (λ x. f ∷ x) whole' ∙ whole) (Permᴰ.swap refl refl),
    )
reordered fs (Permᴰ.trans p q) h =
    let (gs, middle, q') = reordered fs q h in
    let (hs, last, p') = reordered gs p middle in (hs, last, Permᴰ.trans p' q')

-- A statement without ORDER BY returns its rows in some order.
abbrev pub IsArrangement : (List FindingRecord → List FindingRecord) → Type 0
IsArrangement arrange = (rows : List FindingRecord) → Permᴰ (arrange rows) rows

-- The review with its findings in some order.
abbrev pub IsReading : ReviewResult → ReviewResult → Type 0
IsReading read r = (fs : List Finding) × Permᴰ fs r.findings × (read ≡ record r { findings = fs })

pub review_from_records-review_row :
    (arrange : List FindingRecord → List FindingRecord) (r : ReviewResult)
    → IsArrangement arrange
    → (read : ReviewResult) × (review_from_records
          (review_row r)
          (arrange (map (finding_row r.review_id) r.findings))
        ≡ some read)
      × IsReading read r
unfolding review_from_records review_row
review_from_records-review_row arrange r some_order =
    let (fs, findings, p) =
      reordered r.findings (some_order (map (finding_row r.review_id) r.findings))
        (findings_from_rows-map r.review_id r.findings) in
    (record r { findings = fs }, ground arith, (fs, p, refl))
