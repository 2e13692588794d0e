-- ===== src/Cases/Documents.antt =====
-- `SqlAlchemyCaseRepository.create` and `get`: a case is read as it was created, its documents in
-- their order.
use multi_agent_system.Base.{
  ℕ, suc, List, [], ◌∷◌, ◌++◌, map, some, true, false, not, ◌&&◌, ◌≡◌, refl, arith, ◌==◌, inl, inr,
  Bool-cases, Uuid, select, any, find_first, All,
}
use multi_agent_system.Exec.{ok}
use multi_agent_system.Persistence.{World, SupplierCaseRecord, DocumentRecord, has_case}
use multi_agent_system.Schemas.{SupplierCase, CaseStatus, DocumentInput}
use multi_agent_system.Cases.Sql.{case_status_value, case_status_of}
use multi_agent_system.Cases.Records.{
  case_row, document_rows, rows_for, with_case, create, get, case_from_record, document_from_row,
  insert_by_position, sort_by_position, admits_documents,
}

case_status_of-case_status_value : (s : CaseStatus) → case_status_of (case_status_value s) ≡ some s
unfolding case_status_of case_status_value
case_status_of-case_status_value CaseStatus.new = refl
case_status_of-case_status_value CaseStatus.in_review = refl
case_status_of-case_status_value CaseStatus.pending_approval = refl
case_status_of-case_status_value CaseStatus.approved = refl
case_status_of-case_status_value CaseStatus.rejected = refl
case_status_of-case_status_value CaseStatus.review_failed = refl

find_first-append :
    (i : Uuid) (rows : List SupplierCaseRecord) (c : SupplierCaseRecord)
    → any (λ x. x.id == i) rows ≡ false
    → c.id ≡ i
    → find_first (λ x. x.id == i) (rows ++ c ∷ []) ≡ some c
find_first-append i [] c h e = ground arith
find_first-append i (x ∷ rows) c h e = let rest = find_first-append i rows c in ground (arith, rest)

module _ (case_id : Uuid) (draw : ℕ → Uuid) where
  select-document_rows :
      (position drawn : ℕ) (ds : List DocumentInput)
      → select (λ d. d.case_id == case_id) (document_rows case_id draw position drawn ds)
        ≡ document_rows case_id draw position drawn ds
  unfolding document_rows
  select-document_rows position drawn [] = refl
  select-document_rows position drawn (d ∷ ds) =
      let rest = select-document_rows (suc position) (suc drawn) ds in ground arith

  -- The rows are in the order of their positions already.
  sort-document_rows :
      (position drawn : ℕ) (ds : List DocumentInput)
      → sort_by_position (document_rows case_id draw position drawn ds)
        ≡ document_rows case_id draw position drawn ds
  unfolding document_rows sort_by_position insert_by_position
  sort-document_rows position drawn [] = refl
  sort-document_rows position drawn (d ∷ []) = refl
  sort-document_rows position drawn (d ∷ e ∷ ds) =
      let rest = sort-document_rows (suc position) (suc drawn) (e ∷ ds) in ground arith

  map-document_rows :
      (position drawn : ℕ) (ds : List DocumentInput)
      → map document_from_row (document_rows case_id draw position drawn ds) ≡ ds
  unfolding document_rows document_from_row
  map-document_rows position drawn [] = refl
  map-document_rows position drawn (d ∷ ds) =
      let rest = map-document_rows (suc position) (suc drawn) ds in ground arith

-- Each document belongs to a case that is there: the foreign key of `documents`.
abbrev pub IsFiled : World → Type 0
IsFiled w = All (λ d. has_case w.database d.case_id ≡ true) w.database.documents

other_case :
    (i j : Uuid) (cases : List SupplierCaseRecord)
    → any (λ c. c.id == i) cases ≡ false
    → any (λ c. c.id == j) cases ≡ true
    → (j == i) ≡ false
other_case i j [] h k = ground arith
other_case i j (c ∷ cases) h k = elim (Bool-cases (c.id == j)) [
  | inl own ↦ ground arith
  | inr other ↦ other_case i j cases (ground arith) (ground arith)
]

select-append :
    (i : Uuid) (cases : List SupplierCaseRecord) (rows new : List DocumentRecord)
    → any (λ c. c.id == i) cases ≡ false
    → All (λ d. any (λ c. c.id == d.case_id) cases ≡ true) rows
    → select (λ d. d.case_id == i) (rows ++ new) ≡ select (λ d. d.case_id == i) new
select-append i cases [] new h filed = refl
select-append i cases (x ∷ rows) new h filed =
    let rest = select-append i cases rows new h filed.1 in
    let other = other_case i x.case_id cases h filed.0 in ground arith

-- A case that has been created is read back as it was, with its documents in their order, as long
-- as the foreign key of the documents holds in the database.
pub create-get :
    (c d : SupplierCase) (w : World)
    → IsFiled w
    → (create c w).0 ≡ ok d
    → (d ≡ c) × (get c.id (create c w).1 ≡ (ok c, (create c w).1))
unfolding create get case_from_record case_row with_case
create-get c d w filed created =
    let i = c.id in
    let draw = w.host.random_uuids in
    let drawn = w.host.uuids_drawn in
    let db = w.database in
    elim (Bool-cases (not (has_case db c.id) && admits_documents db.documents (rows_for c w))) [
      | inr unfit ↦ absurd (ground arith)
      | inl fit ↦
          let fresh : has_case db c.id ≡ false = ground arith in
          let found = find_first-append c.id db.supplier_cases (case_row c) fresh refl in
          let mine = select-append c.id db.supplier_cases db.documents (rows_for c w) fresh filed in
          let all = select-document_rows i draw 0 drawn c.documents in
          let sorted = sort-document_rows i draw 0 drawn c.documents in
          let back = map-document_rows i draw 0 drawn c.documents in
          let status = case_status_of-case_status_value c.status in (ground arith, ground arith)
    ]
