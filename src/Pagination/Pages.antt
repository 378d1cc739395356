-- ===== src/Pagination/Pages.antt =====
-- backend/src/common/pagination.ts: the pages that a response counts are the whole list.
use exchange_matching.Base.{
  ℕ, zero, suc, ◌+◌, ◌-◌, ◌*◌, ◌/◌, ◌≤◌, ◌<◌, ◌≡◌, refl, sym, ap, ◌∙◌, arith, List, [], ◌∷◌, ◌++◌,
  map,
}
use native.Mathlib.Nat.{lt-div-mul-add}
use exchange_matching.Table.{limit, skip, length}
use exchange_matching.Pagination.{total_pages_of, rows_of_page}

module _ {A : Type 0} where
  limit-none : (n : ℕ) → ◌≡◌ {A = List A} (limit n []) []
  unfolding limit
  limit-none zero = refl
  limit-none (suc n) = refl

  limit-add : (a b : ℕ) (xs : List A) → limit (a + b) xs ≡ limit a xs ++ limit b (skip a xs)
  unfolding limit skip
  limit-add zero b xs = let none_more : 0 + b ≡ b = omega arith in ap (λ n. limit n xs) none_more
  limit-add (suc a) b [] = limit-none (suc a + b) ∙ sym (limit-none b)
  limit-add (suc a) b (x ∷ xs) =
      let later : suc a + b ≡ suc (a + b) = omega arith in
      ap (λ n. limit n (x ∷ xs)) later ∙ ap (λ ys. x ∷ ys) (limit-add a b xs)

  limit-all : (n : ℕ) (xs : List A) → length xs ≤ n → limit n xs ≡ xs
  unfolding limit length
  limit-all zero [] h = refl
  limit-all zero (x ∷ xs) h = ground arith
  limit-all (suc n) [] h = refl
  limit-all (suc n) (x ∷ xs) h = ap (λ ys. x ∷ ys) (limit-all n xs (omega (arith, h)))

  pub length-limit : (n : ℕ) (xs : List A) → length (limit n xs) ≤ n
  unfolding limit length
  length-limit zero xs = omega arith
  length-limit (suc n) [] = omega arith
  length-limit (suc n) (x ∷ xs) = omega (arith, length-limit n xs)

-- The pages 1 to k, one after the other.
unfoldable pub collect : {Item : Type 0} → (page : ℕ → List Item) → (k : ℕ) → List Item
collect page zero = []
collect page (suc k) = collect page k ++ page (suc k)

collect-rows_of_page :
    {A : Type 0} (size k : ℕ) (rows : List A)
    → collect (λ page. rows_of_page page size rows) k ≡ limit (k * size) rows
unfolding collect rows_of_page limit
collect-rows_of_page size zero rows =
    let nothing : 0 ≡ 0 * size = omega arith in ap (λ n. limit n rows) nothing
collect-rows_of_page size (suc k) rows =
    let offset : suc k - 1 ≡ k = omega arith in
    let sum : suc k * size ≡ k * size + size = grind arith in
    rw (offset, collect-rows_of_page size k rows, sum) (sym (limit-add (k * size) size rows))

total_pages_of-le : (n size : ℕ) → 1 ≤ size → n ≤ total_pages_of n size * size
unfolding total_pages_of
total_pages_of-le n size h =
    let more : n + (size - 1) < (n + (size - 1)) / size * size + size = lt-div-mul-add h in
    ground (arith, more, h)

pub rows_of_page_complete :
    {A : Type 0} (size : ℕ) (rows : List A)
    → 1 ≤ size
    → collect (λ page. rows_of_page page size rows) (total_pages_of (length rows) size) ≡ rows
rows_of_page_complete size rows h =
    collect-rows_of_page size (total_pages_of (length rows) size) rows
    ∙ limit-all (total_pages_of (length rows) size * size) rows
        (total_pages_of-le (length rows) size h)

map-append : {A B : Type 0} (f : A → B) (xs ys : List A) → map f (xs ++ ys) ≡ map f xs ++ map f ys
map-append f [] ys = refl
map-append f (x ∷ xs) ys = ap (λ zs. f x ∷ zs) (map-append f xs ys)

pub collect-map :
    {A B : Type 0} (f : A → B) (page : ℕ → List A) (k : ℕ)
    → collect (λ n. map f (page n)) k ≡ map f (collect page k)
unfolding collect
collect-map f page zero = refl
collect-map f page (suc k) =
    ap (λ zs. zs ++ map f (page (suc k))) (collect-map f page k)
    ∙ sym (map-append f (collect page k) (page (suc k)))
