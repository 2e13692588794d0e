-- ===== src/Outbox/Sorting.antt =====
-- The order in which `claim_batch` takes messages: a sort that keeps every row and puts the rows
-- that are available first in front.
use multi_agent_system.Base.{
  suc, List, [], ◌∷◌, true, false, ◌≡◌, refl, arith, inl, inr, Bool-cases, length, All,
}
use multi_agent_system.Persistence.{OutboxMessageRecord}
use multi_agent_system.Outbox.Repository.{comes_before, insert_sorted, sort_rows}

-- Each row comes before the rows behind it.
abbrev pub IsOrdered : List OutboxMessageRecord → Type 0
IsOrdered [] = Unit
IsOrdered (r ∷ rows) = All (λ s. comes_before r s ≡ true) rows × IsOrdered rows

comes_before_total :
    (r s : OutboxMessageRecord) → comes_before r s ≡ false → comes_before s r ≡ true
unfolding comes_before
comes_before_total r s h = ground arith

comes_before_trans :
    (r s t : OutboxMessageRecord)
    → comes_before r s ≡ true
    → comes_before s t ≡ true
    → comes_before r t ≡ true
unfolding comes_before
comes_before_trans r s t h k = ground arith

All-before :
    (r s : OutboxMessageRecord) (rows : List OutboxMessageRecord)
    → comes_before r s ≡ true
    → All (λ t. comes_before s t ≡ true) rows
    → All (λ t. comes_before r t ≡ true) rows
All-before r s [] h k = tt
All-before r s (t ∷ rows) h k = (comes_before_trans r s t h k.0, All-before r s rows h k.1)

module _ {κ} (P : OutboxMessageRecord → Type κ) where
  pub All-insert_sorted :
      (r : OutboxMessageRecord) (rows : List OutboxMessageRecord)
      → P r
      → All P rows
      → All P (insert_sorted r rows)
  unfolding insert_sorted
  All-insert_sorted r [] h k = (h, tt)
  All-insert_sorted r (s ∷ rows) h k = elim (Bool-cases (comes_before r s)) [
    | inl e ↦ rw e (h, k)
    | inr e ↦ rw e (k.0, All-insert_sorted r rows h k.1)
  ]

  pub All-sort_rows : (rows : List OutboxMessageRecord) → All P rows → All P (sort_rows rows)
  unfolding sort_rows
  All-sort_rows [] h = tt
  All-sort_rows (r ∷ rows) h = All-insert_sorted r (sort_rows rows) h.0 (All-sort_rows rows h.1)

insert_sorted-IsOrdered :
    (r : OutboxMessageRecord) (rows : List OutboxMessageRecord)
    → IsOrdered rows
    → IsOrdered (insert_sorted r rows)
unfolding insert_sorted
insert_sorted-IsOrdered r [] h = (tt, tt)
insert_sorted-IsOrdered r (s ∷ rows) h = elim (Bool-cases (comes_before r s)) [
  | inl e ↦ rw e ((e, All-before r s rows e h.0), h)
  | inr e ↦ rw e (
    All-insert_sorted (λ t. comes_before s t ≡ true) r rows (comes_before_total r s e) h.0,
    insert_sorted-IsOrdered r rows h.1,
  )
]

pub sort_rows-IsOrdered : (rows : List OutboxMessageRecord) → IsOrdered (sort_rows rows)
unfolding sort_rows
sort_rows-IsOrdered [] = tt
sort_rows-IsOrdered (r ∷ rows) =
    insert_sorted-IsOrdered r (sort_rows rows) (sort_rows-IsOrdered rows)

length-insert_sorted :
    (r : OutboxMessageRecord) (rows : List OutboxMessageRecord)
    → length (insert_sorted r rows) ≡ suc (length rows)
unfolding insert_sorted
length-insert_sorted r [] = refl
length-insert_sorted r (s ∷ rows) = ground (arith, length-insert_sorted r rows)

pub length-sort_rows : (rows : List OutboxMessageRecord) → length (sort_rows rows) ≡ length rows
unfolding sort_rows
length-sort_rows [] = refl
length-sort_rows (r ∷ rows) =
    ground (arith, length-insert_sorted r (sort_rows rows), length-sort_rows rows)
