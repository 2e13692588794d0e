-- ===== src/Cases/Reviews.antt =====
-- `SqlAlchemyCaseRepository.save_review` and `get_review`: what is saved is what is read, but for
-- the order of the findings.
use multi_agent_system.Base.{
  List, [], ◌∷◌, ◌++◌, map, none, some, true, false, ◌≡◌, refl, arith, ◌==◌, inl, inr, Bool-cases,
  Uuid, select, any, find_first, All,
}
use multi_agent_system.Exec.{ok}
use multi_agent_system.Persistence.{World, FindingRecord, ReviewRunRecord, has_review}
use multi_agent_system.Schemas.{ReviewResult, Finding}
use multi_agent_system.Cases.Findings.{IsArrangement, IsReading, review_from_records-review_row}
use multi_agent_system.Cases.Sql.{
  finding_row, review_row, review_of, get_review, save_review, save_new, insert_review, with_review,
  admits_review, admits_findings,
}

find_first-append :
    (i : Uuid) (rows : List ReviewRunRecord) (r : ReviewRunRecord)
    → any (λ x. x.id == i) rows ≡ false
    → r.id ≡ i
    → find_first (λ x. x.id == i) (rows ++ r ∷ []) ≡ some r
find_first-append i [] r h e = ground arith
find_first-append i (x ∷ rows) r h e = let rest = find_first-append i rows r in ground (arith, rest)

find_first-fresh :
    (i : Uuid) (rows : List ReviewRunRecord)
    → any (λ x. x.id == i) rows ≡ false
    → find_first (λ x. x.id == i) rows ≡ none
find_first-fresh i [] h = refl
find_first-fresh i (x ∷ rows) h = let rest = find_first-fresh i rows in ground (arith, rest)

-- Each finding belongs to a review that is there: the foreign key of `findings`.
abbrev pub IsOwned : World → Type 0
IsOwned w = All (λ f. has_review w.database f.review_run_id ≡ true) w.database.findings

select-rows :
    (i : Uuid) (fs : List Finding)
    → select (λ (f : FindingRecord). f.review_run_id == i) (map (finding_row i) fs)
      ≡ map (finding_row i) fs
unfolding finding_row
select-rows i [] = refl
select-rows i (f ∷ fs) = let rest = select-rows i fs in ground arith

select-append_rows :
    (i : Uuid) (runs : List ReviewRunRecord) (rows : List FindingRecord) (fs : List Finding)
    → any (λ x. x.id == i) runs ≡ false
    → All (λ f. any (λ x. x.id == f.review_run_id) runs ≡ true) rows
    → select (λ f. f.review_run_id == i) (rows ++ map (finding_row i) fs) ≡ map (finding_row i) fs
select-append_rows i runs [] fs h owned = select-rows i fs
select-append_rows i runs (x ∷ rows) fs h owned =
    let rest = select-append_rows i runs rows fs h owned.1 in
    let other : (x.review_run_id == i) ≡ false = not_of i runs x h owned.0 in ground arith
  where
    not_of :
        (i : Uuid) (runs : List ReviewRunRecord) (x : FindingRecord)
        → any (λ y. y.id == i) runs ≡ false
        → any (λ y. y.id == x.review_run_id) runs ≡ true
        → (x.review_run_id == i) ≡ false
    not_of i [] x h k = ground arith
    not_of i (y ∷ runs) x h k = elim (Bool-cases (y.id == x.review_run_id)) [
      | inl own ↦ ground arith
      | inr other ↦ not_of i runs x (ground arith) (ground arith)
    ]

-- The review that was added is read back.
added_review :
    (arrange : List FindingRecord → List FindingRecord) (r : ReviewResult) (w : World)
    → any (λ x. x.id == r.review_id) w.database.review_runs ≡ false
    → IsOwned w
    → IsArrangement arrange
    → (read : ReviewResult) × (get_review arrange r.review_id (with_review r w)
        ≡ (ok read, with_review r w))
      × IsReading read r
unfolding get_review with_review
added_review arrange r w fresh owned some_order =
    let row : (review_row r).id ≡ r.review_id = unfold review_row in refl in
    let found = find_first-append r.review_id w.database.review_runs (review_row r) fresh row in
    let rows =
      select-append_rows r.review_id w.database.review_runs w.database.findings r.findings fresh
        owned in
    let (read, readable, same) = review_from_records-review_row arrange r some_order in
    (read, ground arith, same)

-- What `save_review` does under a new identifier, when it returns.
saves_new :
    (arrange : List FindingRecord → List FindingRecord) (others : World → World)
    (r s : ReviewResult) (w : World)
    → review_of w r.review_id ≡ none
    → (save_review arrange others r w).0 ≡ ok s
    → (s ≡ r)
      × ((save_review arrange others r w).1 ≡ with_review r (others w))
      × (any (λ x. x.id == r.review_id) (others w).database.review_runs ≡ false)
unfolding save_review save_new insert_review admits_review get_review
saves_new arrange others r s w fresh saved =
    let v = others w in
    elim (Bool-cases (admits_review v.database r)) [
      | inr unfit ↦ absurd (ground arith)
      | inl fit ↦ elim (Bool-cases (admits_findings v.database.findings r.findings)) [
        | inl admitted ↦ (ground arith, ground arith, ground arith)
        | inr collision ↦
            let nobody = find_first-fresh r.review_id v.database.review_runs (ground arith) in
            absurd (ground arith)
      ]
    ]

saves_again :
    (arrange : List FindingRecord → List FindingRecord) (others : World → World)
    (r read again : ReviewResult) (w : World)
    → again.review_id ≡ r.review_id
    → get_review arrange r.review_id w ≡ (ok read, w)
    → save_review arrange others again w ≡ (ok read, w)
unfolding save_review save_new get_review
saves_again arrange others r read again w same there = ground arith

-- A review that is saved under a new identifier is returned, and it is read back with each of its
-- fields and with its findings in whatever order the database returns the rows; saving any review
-- under this identifier again returns what is read and changes nothing. This holds whatever other
-- transactions commit before the flush, as long as the foreign key of the findings holds.
pub save_review-get_review :
    (arrange arrange' : List FindingRecord → List FindingRecord) (others others' : World → World)
    (r again s : ReviewResult) (w : World)
    → IsArrangement arrange'
    → again.review_id ≡ r.review_id
    → review_of w r.review_id ≡ none
    → IsOwned (others w)
    → (save_review arrange others r w).0 ≡ ok s
    → let t = (save_review arrange others r w).1 in
      (s ≡ r)
      × ((read : ReviewResult) × IsReading read r
          × (get_review arrange' r.review_id t ≡ (ok read, t))
          × (save_review arrange' others' again t ≡ (ok read, t)))
save_review-get_review arrange arrange' others others' r again s w some_order same fresh owned
      saved =
    let (returned, after, free) = saves_new arrange others r s w fresh saved in
    let (read, there, reading) = added_review arrange' r (others w) free owned some_order in
    let found : get_review arrange' r.review_id (save_review arrange others r w).1
        ≡ (ok read, (save_review arrange others r w).1) =
      rw after there in
    (
      returned,
      (
        read,
        reading,
        found,
        saves_again arrange' others' r read again (save_review arrange others r w).1 same found,
      ),
    )
