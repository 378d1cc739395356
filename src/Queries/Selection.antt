-- ===== src/Queries/Selection.antt =====
-- The rows that a query selects, told apart from the rest of the table by what they should be and not by
-- the test that the code makes (backend/src/orders/orders.repository.ts, backend/src/market/market.repository.ts).
use exchange_matching.Base.{
  ℕ, ◌+◌, ◌≡◌, refl, arith, Bool, true, not, List, [], ◌∷◌, Bool-cases, inl, inr,
}
use exchange_matching.Table.{sum_by, where_rows, insert_row, sort_rows}
use exchange_matching.Outbox.{Every}
use exchange_matching.Queries.Sorting.{sum_by-sort_rows}

-- `kept` and `dropped` are the rows of the table, each as often as it stands there; all of the first
-- match and none of the second.
pub record IsSelection {A : Type 0} (Match : A → Type 0) (table kept dropped : List A)
    : Type 0 where
  pub all_rows : (f : A → ℕ) → sum_by f table ≡ sum_by f kept + sum_by f dropped
  pub match : Every Match kept
  pub others : Every (λ a. ¬ Match a) dropped

module _ {A : Type 0} where
  Every-insert_row :
      (P : A → Type 0) (before : A → A → Bool) (x : A) (xs : List A)
      → P x
      → Every P xs
      → Every P (insert_row before x xs)
  unfolding insert_row
  Every-insert_row P before x [] h hs = (h, tt)
  Every-insert_row P before x (y ∷ ys) h (k, ks) = elim (Bool-cases (before y x)) [
    | inl first ↦ rw first (k, Every-insert_row P before x ys h ks)
    | inr other ↦ rw other (h, (k, ks))
  ]

  Every-sort_rows :
      (P : A → Type 0) (before : A → A → Bool) (xs : List A)
      → Every P xs
      → Every P (sort_rows before xs)
  unfolding sort_rows
  Every-sort_rows P before [] h = tt
  Every-sort_rows P before (x ∷ xs) (h, hs) =
      Every-insert_row P before x (sort_rows before xs) h (Every-sort_rows P before xs hs)

module _ {A : Type 0} (Match : A → Type 0) (test : A → Bool)
    (finds : (a : A) → Match a → test a ≡ true) (right : (a : A) → test a ≡ true → Match a) where
  where_rows-sum_by :
      (f : A → ℕ) (table : List A)
      → sum_by f table
        ≡ sum_by f (where_rows test table) + sum_by f (where_rows (λ a. not (test a)) table)
  unfolding sum_by where_rows
  where_rows-sum_by f [] = refl
  where_rows-sum_by f (a ∷ table) = elim (Bool-cases (test a)) [
    | inl yes_one ↦ ground (arith, yes_one, where_rows-sum_by f table)
    | inr no_one ↦ ground (arith, no_one, where_rows-sum_by f table)
  ]

  where_rows-Match : (table : List A) → Every Match (where_rows test table)
  unfolding where_rows
  where_rows-Match [] = tt
  where_rows-Match (a ∷ table) = elim (Bool-cases (test a)) [
    | inl yes_one ↦ rw (yes_one, where_rows) (right a yes_one, where_rows-Match table)
    | inr no_one ↦ rw (no_one, where_rows) (where_rows-Match table)
  ]

  where_rows-others :
      (table : List A) → Every (λ a. ¬ Match a) (where_rows (λ a. not (test a)) table)
  unfolding where_rows
  where_rows-others [] = tt
  where_rows-others (a ∷ table) = elim (Bool-cases (test a)) [
    | inl yes_one ↦ rw (yes_one, where_rows) (where_rows-others table)
    | inr no_one ↦
        rw (no_one, where_rows) (λ m. ground (arith, finds a m, no_one), where_rows-others table)
  ]

  pub where_rows-IsSelection :
      (table : List A)
      → IsSelection Match table (where_rows test table) (where_rows (λ a. not (test a)) table)
  where_rows-IsSelection table = record {
    all_rows = λ f. where_rows-sum_by f table;
    match = where_rows-Match table;
    others = where_rows-others table;
  }

  pub sort_rows-IsSelection :
      (before : A → A → Bool) (table : List A)
      → IsSelection Match table
          (sort_rows before (where_rows test table))
          (where_rows (λ a. not (test a)) table)
  sort_rows-IsSelection before table = record {
    all_rows = λ f.
        ground
          (arith, where_rows-sum_by f table, sum_by-sort_rows before f (where_rows test table));
    match = Every-sort_rows Match before (where_rows test table) (where_rows-Match table);
    others = where_rows-others table;
  }
