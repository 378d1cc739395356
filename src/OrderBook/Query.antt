-- ===== src/OrderBook/Query.antt =====
-- The query for the next candidate: what it returns is a row of the table that matches, and no other
-- row that matches has priority over it.
use exchange_matching.Base.{
  ℕ, ◌≡◌, ◌≢◌, true, false, arith, List, [], ◌∷◌, Option, none, some, Bool, inl, inr, Option-cases,
}
use exchange_matching.Table.{find}
use exchange_matching.Database.{Order, Side, order_key}
use exchange_matching.OrderBook.Candidates.{
  MakerCursor, cursor_at, is_behind, is_past, is_candidate, find_first, find_next_candidate,
  precedes,
}
use exchange_matching.OrderBook.Priority.{behind_of_not_behind, behind_asymm, behind_irrefl}
use exchange_matching.OrderBook.Rules.{
  Faces, Past, NotBehind, Faces-is_candidate, is_candidate-Faces, is_behind-NotBehind,
}
use exchange_matching.Ledger.{Apart, Distinct}

find_first-test :
    (test : Order → Bool) (before : Order → Order → Bool) (os : List Order) (o : Order)
    → find_first test before os ≡ some o
    → test o ≡ true
unfolding find_first
find_first-test test before [] o h = cc
find_first-test test before (x ∷ os) o h = elim (Option-cases (find_first test before os)) [
  | inl empty ↦ ground (arith, empty)
  | inr (y, e) ↦ ground (arith, e, find_first-test test before os y e)
]

Apart-find :
    (k j : ℕ) (os : List Order) (o : Order) → Apart k os → find order_key j os ≡ some o → j ≢ k
unfolding find
Apart-find k j [] o a h = cc
Apart-find k j (x ∷ os) o a h = ground (arith, Apart-find k j os o a.1)

pub find_first-find :
    (test : Order → Bool) (before : Order → Order → Bool) (os : List Order) (o : Order)
    → Distinct os
    → find_first test before os ≡ some o
    → find order_key o.id os ≡ some o
unfolding find_first find
find_first-find test before [] o d h = cc
find_first-find test before (x ∷ os) o d h = elim (Option-cases (find_first test before os)) [
  | inl empty ↦ ground (arith, empty)
  | inr (y, e) ↦ ground (
    arith,
    e,
    find_first-find test before os y d.1 e,
    Apart-find x.id y.id os y d.0 (find_first-find test before os y d.1 e),
  )
]

find_first-none :
    (test : Order → Bool) (before : Order → Order → Bool) (os : List Order) (j : ℕ) (y : Order)
    → find_first test before os ≡ none
    → find order_key j os ≡ some y
    → test y ≡ false
unfolding find_first find
find_first-none test before [] j y h f = cc
find_first-none test before (x ∷ os) j y h f = elim (Option-cases (find_first test before os)) [
  | inl empty ↦ ground (arith, empty, find_first-none test before os j y empty)
  | inr (z, e) ↦ ground (arith, e)
]

-- The row that is returned is behind no other row that matches.
find_first-best :
    (test : Order → Bool) (s : Side) (os : List Order) (o : Order) (j : ℕ) (y : Order)
    → find_first test (precedes s) os ≡ some o
    → find order_key j os ≡ some y
    → test y ≡ true
    → is_behind s o.price o.sequence (cursor_at y) ≡ false
unfolding find_first find
find_first-best test s [] o j y h f t = cc
find_first-best test s (x ∷ os) o j y h f t =
    elim (Option-cases (find_first test (precedes s) os)) [
      | inl empty ↦
          ground (arith, empty, behind_irrefl s x, find_first-none test (precedes s) os j y empty)
      | inr (z, e) ↦ ground (
        arith,
        e,
        behind_irrefl s x,
        behind_asymm s z x,
        find_first-best test s os z j y e,
        behind_of_not_behind s z x (cursor_at y),
      )
    ]

module _ (taker : Order) (cursor : Option MakerCursor) (os : List Order) (o : Order) where
  pub find_next_candidate-is_candidate :
      find_next_candidate taker cursor os ≡ some o → is_candidate taker cursor o ≡ true
  unfolding find_next_candidate
  find_next_candidate-is_candidate h = find_first-test _ _ os o h

  pub find_next_candidate-find :
      Distinct os → find_next_candidate taker cursor os ≡ some o → find order_key o.id os ≡ some o
  unfolding find_next_candidate
  find_next_candidate-find d h = find_first-find _ _ os o d h

  pub find_next_candidate-not_behind :
      (j : ℕ) (y : Order)
      → find_next_candidate taker cursor os ≡ some o
      → find order_key j os ≡ some y
      → is_candidate taker cursor y ≡ true
      → is_behind taker.side o.price o.sequence (cursor_at y) ≡ false
  unfolding find_next_candidate
  find_next_candidate-not_behind j y h f t = find_first-best _ taker.side os o j y h f t

  pub is_candidate-is_past :
      (x : Order) → is_candidate taker cursor x ≡ true → is_past taker.side cursor x ≡ true
  unfolding is_candidate
  is_candidate-is_past x h = ground arith

pub find_next_candidate-none :
    (taker : Order) (cursor : Option MakerCursor) (os : List Order) (j : ℕ) (y : Order)
    → find_next_candidate taker cursor os ≡ none
    → find order_key j os ≡ some y
    → is_candidate taker cursor y ≡ false
unfolding find_next_candidate
find_next_candidate-none taker cursor os j y h f = find_first-none _ _ os j y h f

-- What the query returns when the row `y` matches: a row that matches too and is not behind it.
pub record IsBestMaker (taker : Order) (cursor : Option MakerCursor) (os : List Order) (y : Order)
    : Type 0 where
  pub next : Order
  pub returns : find_next_candidate taker cursor os ≡ some next
  pub row : find order_key next.id os ≡ some next
  pub faces : Faces taker next
  pub past : Past taker.side cursor next
  pub first : NotBehind taker.side next y

-- For a table with unique ids and a row in it of another user, on the other side, open or
-- partially filled, at a price that the taker accepts and behind the cursor: the query returns
-- a row of the table for which all this holds too, and which has a better price than the first
-- - lower for a buyer, higher for a seller - or the same price and no higher sequence number.
pub find_next_candidate-best :
    (taker : Order) (cursor : Option MakerCursor) (os : List Order) (j : ℕ) (y : Order)
    → Distinct os
    → find order_key j os ≡ some y
    → Faces taker y
    → Past taker.side cursor y
    → IsBestMaker taker cursor os y
find_next_candidate-best taker cursor os j y distinct row faces past =
    let matches = Faces-is_candidate taker cursor y faces past in
    elim (Option-cases (find_next_candidate taker cursor os)) [
      | inl empty ↦ ground (arith, matches, find_next_candidate-none taker cursor os j y empty row)
      | inr (o, e) ↦
          let found =
            is_candidate-Faces taker cursor o
              (find_next_candidate-is_candidate taker cursor os o e) in
          record {
            next = o;
            returns = e;
            row = find_next_candidate-find taker cursor os o distinct e;
            faces = found.0;
            past = found.1;
            first =
                is_behind-NotBehind taker.side o y
                  (find_next_candidate-not_behind taker cursor os o j y e row matches);
          }
    ]
