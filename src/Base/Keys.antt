-- ===== src/Base/Keys.antt =====
-- Rows of a table with a primary key: lists in which no two items have the same key.
use Prim.Native.Nat.{ℕ}
use mathlib.Core.Path.{◌≡◌}
use mathlib.Core.Logic.{◌≢◌}
use mathlib.Core.Bool.{Bool, true, false}
use mathlib.Core.Option.{some}
use mathlib.Core.List.{List, [], ◌∷◌, ◌++◌}
use native.Mathlib.Omega.{arith}
use multi_agent_system.Base.Tests.{◌==◌, if◌then◌else◌}
use multi_agent_system.Base.Lists.{All, All-append, any, find_first, update_where}

module _ {ℓ} {A : Type ℓ} (key : A → ℕ) where
  abbrev pub IsDistinct : List A → Type 0
  IsDistinct [] = Unit
  IsDistinct (x ∷ xs) = All (λ y. key y ≢ key x) xs × IsDistinct xs

  -- The item that a search by key finds is the only one with that key.
  abbrev pub IsFound : ℕ → List A → A → Type ℓ
  IsFound i xs x = (key x == i) ≡ true → find_first (λ y. key y == i) xs ≡ some x

  IsFound-behind :
      (i : ℕ) (x : A) (ys xs : List A)
      → All (λ y. key y ≢ key x) ys
      → All (IsFound i xs) ys
      → All (IsFound i (x ∷ xs)) ys
  IsFound-behind i x [] xs h k = tt
  IsFound-behind i x (y ∷ ys) xs h k =
      ((λ e. ground (arith, k.0 e, h.0)), IsFound-behind i x ys xs h.1 k.1)

  pub IsDistinct-IsFound : (i : ℕ) (xs : List A) → IsDistinct xs → All (IsFound i xs) xs
  IsDistinct-IsFound i [] h = tt
  IsDistinct-IsFound i (x ∷ xs) h =
      ((λ e. ground arith), IsFound-behind i x xs xs h.0 (IsDistinct-IsFound i xs h.1))

  found_by_own_key :
      (xs ys : List A)
      → ((i : ℕ) → All (IsFound i xs) ys)
      → All (λ y. find_first (λ z. key z == key y) xs ≡ some y) ys
  found_by_own_key xs [] h = tt
  found_by_own_key xs (y ∷ ys) h =
      ((h (key y)).0 (ground arith), found_by_own_key xs ys (λ i. (h i).1))

  -- Each item is the one that a search by its own key finds.
  pub IsDistinct-own :
      (xs : List A) → IsDistinct xs → All (λ y. find_first (λ z. key z == key y) xs ≡ some y) xs
  IsDistinct-own xs h = found_by_own_key xs xs (λ i. IsDistinct-IsFound i xs h)

  module _ (p : A → Bool) (f : A → A) (keeps : (x : A) → key (f x) ≡ key x) where
    ne-update_where :
        (k : ℕ) (xs : List A) → All (λ y. key y ≢ k) xs → All (λ y. key y ≢ k) (update_where p f xs)
    ne-update_where k [] h = tt
    ne-update_where k (x ∷ xs) h = ((λ e. h.0 (ground (arith, keeps x))), ne-update_where k xs h.1)

    -- An update that does not select the item that a search finds leaves that item to be found.
    pub found-update_where :
        (i : ℕ) (x : A) (xs : List A)
        → find_first (λ y. key y == i) xs ≡ some x
        → p x ≡ false
        → find_first (λ y. key y == i) (update_where p f xs) ≡ some x
    found-update_where i x [] h e = h
    found-update_where i x (y ∷ xs) h e =
        let same : key (if p y then f y else y) ≡ key y = ground (arith, keeps y) in
        ground (arith, same, found-update_where i x xs)

    -- An update that selects the item that a search finds leaves the updated item to be found.
    pub updated-update_where :
        (i : ℕ) (x : A) (xs : List A)
        → find_first (λ y. key y == i) xs ≡ some x
        → p x ≡ true
        → find_first (λ y. key y == i) (update_where p f xs) ≡ some (f x)
    updated-update_where i x [] h e = ground arith
    updated-update_where i x (y ∷ xs) h e =
        let same : key (if p y then f y else y) ≡ key y = ground (arith, keeps y) in
        ground (arith, same, updated-update_where i x xs)

    pub IsDistinct-update_where : (xs : List A) → IsDistinct xs → IsDistinct (update_where p f xs)
    IsDistinct-update_where [] h = tt
    IsDistinct-update_where (x ∷ xs) h =
        let same : key (if p x then f x else x) ≡ key x = ground (arith, keeps x) in
        (rw same (ne-update_where (key x) xs h.0), IsDistinct-update_where xs h.1)

  ne_of_fresh :
      (x : A) (xs : List A) → any (λ y. key y == key x) xs ≡ false → All (λ y. key y ≢ key x) xs
  ne_of_fresh x [] h = tt
  ne_of_fresh x (y ∷ xs) h = ((λ e. ground arith), ne_of_fresh x xs (ground arith))

  ne-append :
      (x y : A) (xs : List A)
      → key x ≢ key y
      → All (λ z. key z ≢ key x) xs
      → All (λ z. key z ≢ key x) (xs ++ y ∷ [])
  ne-append x y xs h k = All-append _ xs (y ∷ []) k ((λ e. ground arith), tt)

  -- A new item whose key no item has.
  pub IsDistinct-append :
      (x : A) (xs : List A)
      → IsDistinct xs
      → any (λ y. key y == key x) xs ≡ false
      → IsDistinct (xs ++ x ∷ [])
  IsDistinct-append x [] h k = (tt, tt)
  IsDistinct-append x (y ∷ xs) h k =
      (ne-append y x xs (λ e. ground arith) h.0, IsDistinct-append x xs h.1 (ground arith))

  -- What a search by key finds has that key.
  pub found_key :
      (i : ℕ) (x : A) (xs : List A) → find_first (λ y. key y == i) xs ≡ some x → key x ≡ i
  found_key i x [] h = ground arith
  found_key i x (y ∷ xs) h = ground (arith, found_key i x xs)
