-- ===== src/Queries/Sorting.antt =====
-- ORDER BY: no row is lost, and none stands behind one that comes after it.
use exchange_matching.Base.{
  ◌≡◌, ◌+◌, refl, arith, ℕ, suc, List, [], ◌∷◌, Bool, true, false, Bool-cases, inl, inr,
}
use exchange_matching.Table.{sum_by, insert_row, sort_rows, length}

module _ {A : Type 0} (before : A → A → Bool) where
  sum_by-insert_row :
      (f : A → ℕ) (x : A) (xs : List A) → sum_by f (insert_row before x xs) ≡ f x + sum_by f xs
  unfolding sum_by insert_row
  sum_by-insert_row f x [] = refl
  sum_by-insert_row f x (y ∷ xs) = ground (arith, sum_by-insert_row f x xs)

  pub sum_by-sort_rows : (f : A → ℕ) (xs : List A) → sum_by f (sort_rows before xs) ≡ sum_by f xs
  unfolding sum_by sort_rows
  sum_by-sort_rows f [] = refl
  sum_by-sort_rows f (x ∷ xs) =
      ground (arith, sum_by-insert_row f x (sort_rows before xs), sum_by-sort_rows f xs)

  length-insert_row : (x : A) (xs : List A) → length (insert_row before x xs) ≡ suc (length xs)
  unfolding length insert_row
  length-insert_row x [] = refl
  length-insert_row x (y ∷ xs) = ground (arith, length-insert_row x xs)

  pub length-sort_rows : (xs : List A) → length (sort_rows before xs) ≡ length xs
  unfolding length sort_rows
  length-sort_rows [] = refl
  length-sort_rows (x ∷ xs) =
      ground (arith, length-insert_row x (sort_rows before xs), length-sort_rows xs)

  abbrev pub IsBehind : A → List A → Type 0
  IsBehind x [] = Unit {0}
  IsBehind x (y ∷ ys) = before y x ≡ false

  -- Of two rows that follow each other, the second does not come first.
  abbrev pub IsSorted : List A → Type 0
  IsSorted [] = Unit {0}
  IsSorted (x ∷ xs) = IsBehind x xs × IsSorted xs

  insert_row-IsBehind :
      (z x : A) (xs : List A)
      → before x z ≡ false
      → IsBehind z xs
      → IsBehind z (insert_row before x xs)
  unfolding insert_row
  insert_row-IsBehind z x [] h k = h
  insert_row-IsBehind z x (y ∷ xs) h k = elim (Bool-cases (before y x)) [
    | inl first ↦ rw first k
    | inr other ↦ rw other h
  ]

  insert_row-IsSorted :
      ((a b : A) → before a b ≡ true → before b a ≡ false)
      → (x : A) (xs : List A) → IsSorted xs
      → IsSorted (insert_row before x xs)
  unfolding insert_row
  insert_row-IsSorted one_way x [] s = (tt, tt)
  insert_row-IsSorted one_way x (y ∷ xs) (b, s) = elim (Bool-cases (before y x)) [
    | inl first ↦
        rw first
          (insert_row-IsBehind y x xs (one_way y x first) b, insert_row-IsSorted one_way x xs s)
    | inr other ↦ rw other (other, (b, s))
  ]

  pub sort_rows-IsSorted :
      ((a b : A) → before a b ≡ true → before b a ≡ false)
      → (xs : List A) → IsSorted (sort_rows before xs)
  unfolding sort_rows
  sort_rows-IsSorted one_way [] = tt
  sort_rows-IsSorted one_way (x ∷ xs) =
      insert_row-IsSorted one_way x (sort_rows before xs) (sort_rows-IsSorted one_way xs)
