-- ===== src/Table.antt =====
-- A table of the database: rows with a unique key, in the order of insertion. `find` is a lookup by
-- the primary key, `replace` an update of the row that has it, `sum_by` a sum over a column.
use exchange_matching.Base.{
  ℕ, zero, suc, Bool, ◌+◌, ◌≡◌, ◌≢◌, refl, sym, ◌∙◌, List, [], ◌∷◌, ◌++◌, Option, none, some, ◌==◌,
  if◌then◌else◌, arith, ◌≤◌, ◌<◌,
}

module _ {A : Type 0} where
  unfoldable pub sum_by : (A → ℕ) → List A → ℕ
  sum_by f [] = 0
  sum_by f (x ∷ xs) = f x + sum_by f xs

  pub sum_by-append : (f : A → ℕ) (xs ys : List A) → sum_by f (xs ++ ys) ≡ sum_by f xs + sum_by f ys
  unfolding sum_by
  sum_by-append f [] ys = omega arith
  sum_by-append f (x ∷ xs) ys = omega (arith, sum_by-append f xs ys)

  pub sum_by-append_one :
      (f : A → ℕ) (xs : List A) (y : A) → sum_by f (xs ++ y ∷ []) ≡ sum_by f xs + f y
  unfolding sum_by
  sum_by-append_one f xs y = omega (arith, sum_by-append f xs (y ∷ []))

  pub sum_by-le : (f g : A → ℕ) (xs : List A) → ((a : A) → f a ≤ g a) → sum_by f xs ≤ sum_by g xs
  unfolding sum_by
  sum_by-le f g [] m = omega arith
  sum_by-le f g (x ∷ xs) m = omega (arith, m x, sum_by-le f g xs m)

-- The clauses of a query.
module _ {A : Type 0} where
  -- LIMIT
  unfoldable pub limit : ℕ → List A → List A
  limit zero xs = []
  limit (suc n) [] = []
  limit (suc n) (x ∷ xs) = x ∷ limit n xs

  -- WHERE
  unfoldable pub where_rows : (A → Bool) → List A → List A
  where_rows p [] = []
  where_rows p (x ∷ xs) = if p x then x ∷ where_rows p xs else where_rows p xs

  -- OFFSET
  unfoldable pub skip : ℕ → List A → List A
  skip zero xs = xs
  skip (suc n) [] = []
  skip (suc n) (x ∷ xs) = skip n xs

  -- ORDER BY: `before` says which of two rows comes first.
  unfoldable pub insert_row : (before : A → A → Bool) → A → List A → List A
  insert_row before x [] = x ∷ []
  insert_row before x (y ∷ ys) = if before y x then y ∷ insert_row before x ys else x ∷ y ∷ ys

  unfoldable pub sort_rows : (before : A → A → Bool) → List A → List A
  unfolding insert_row
  sort_rows before [] = []
  sort_rows before (x ∷ xs) = insert_row before x (sort_rows before xs)

  -- COUNT(*)
  unfoldable pub length : List A → ℕ
  length [] = 0
  length (x ∷ xs) = suc (length xs)

module _ {A : Type 0} (key : A → ℕ) where
  unfoldable pub find : ℕ → List A → Option A
  find k [] = none
  find k (x ∷ xs) = if key x == k then some x else find k xs

  unfoldable pub replace : ℕ → A → List A → List A
  replace k v [] = []
  replace k v (x ∷ xs) = if key x == k then v ∷ xs else x ∷ replace k v xs

  pub find-key : (k : ℕ) (xs : List A) (x : A) → find k xs ≡ some x → key x ≡ k
  unfolding find
  find-key k [] x h = cc
  find-key k (y ∷ xs) x h = ground (arith, find-key k xs x)

  pub find-replace_self :
      (k : ℕ) (v : A) (xs : List A) (x : A)
      → find k xs ≡ some x
      → key v ≡ k
      → find k (replace k v xs) ≡ some v
  unfolding find replace
  find-replace_self k v [] x h e = cc
  find-replace_self k v (y ∷ xs) x h e = ground (arith, find-replace_self k v xs x)

  pub find-replace_ne :
      (j k : ℕ) (v : A) (xs : List A) → j ≢ k → key v ≡ k → find j (replace k v xs) ≡ find j xs
  unfolding find replace
  find-replace_ne j k v [] n e = refl
  find-replace_ne j k v (y ∷ xs) n e = ground (arith, find-replace_ne j k v xs n e)

  pub sum_by-replace :
      (f : A → ℕ) (k : ℕ) (v : A) (xs : List A) (x : A)
      → find k xs ≡ some x
      → sum_by f (replace k v xs) + f x ≡ sum_by f xs + f v
  unfolding find replace sum_by
  sum_by-replace f k v [] x h = cc
  sum_by-replace f k v (y ∷ xs) x h = ground (arith, sum_by-replace f k v xs x)

  pub sum_by-find-le :
      (f : A → ℕ) (k : ℕ) (xs : List A) (x : A) → find k xs ≡ some x → f x ≤ sum_by f xs
  unfolding find sum_by
  sum_by-find-le f k [] x h = cc
  sum_by-find-le f k (y ∷ xs) x h = ground (arith, sum_by-find-le f k xs x)

  -- An update that puts the row back, and one of a row that was just added.
  pub replace-replace_back :
      (k : ℕ) (v : A) (xs : List A) (x : A)
      → find k xs ≡ some x
      → key v ≡ k
      → replace k x (replace k v xs) ≡ xs
  unfolding find replace
  replace-replace_back k v [] x h e = cc
  replace-replace_back k v (y ∷ xs) x h e =
      ground (arith, replace-replace_back k v xs x, find-key k (y ∷ xs) x h)

  pub replace-append_new :
      (k : ℕ) (v x : A) (xs : List A)
      → find k xs ≡ none
      → key x ≡ k
      → replace k v (xs ++ x ∷ []) ≡ xs ++ v ∷ []
  unfolding find replace
  replace-append_new k v x [] h e = ground arith
  replace-append_new k v x (y ∷ xs) h e = ground (arith, replace-append_new k v x xs)

  -- Two rows are at most the whole table.
  pub sum_by-two-le :
      (f : A → ℕ) (j k : ℕ) (xs : List A) (x y : A)
      → j ≢ k
      → find j xs ≡ some x
      → find k xs ≡ some y
      → f x + f y ≤ sum_by f xs
  unfolding find sum_by
  sum_by-two-le f j k [] x y n g h = cc
  sum_by-two-le f j k (z ∷ xs) x y n g h =
      ground (arith, sum_by-find-le f j xs x, sum_by-find-le f k xs y, sum_by-two-le f j k xs x y n)

  pub sum_by-replace_two :
      (f : A → ℕ) (j k : ℕ) (u v : A) (xs : List A) (x y : A)
      → j ≢ k
      → find j xs ≡ some x
      → find k xs ≡ some y
      → key u ≡ j
      → sum_by f (replace k v (replace j u xs)) + f x + f y ≡ sum_by f xs + f u + f v
  sum_by-replace_two f j k u v xs x y n g h e = omega (
    arith,
    sum_by-replace f j u xs x g,
    sum_by-replace f k v (replace j u xs) y (find-replace_ne k j u xs (λ p. n (sym p)) e ∙ h),
  )

  -- A sum falls if no term grows and that of one row falls.
  pub sum_by-lt :
      (f g : A → ℕ) (k : ℕ) (xs : List A) (x : A)
      → ((a : A) → f a ≤ g a)
      → find k xs ≡ some x
      → f x < g x
      → sum_by f xs < sum_by g xs
  unfolding find sum_by
  sum_by-lt f g k [] x m h l = cc
  sum_by-lt f g k (y ∷ xs) x m h l = ground (arith, m y, sum_by-le f g xs m, sum_by-lt f g k xs x m)
