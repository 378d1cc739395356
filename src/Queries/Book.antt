-- ===== src/Queries/Book.antt =====
-- backend/src/market/market.service.ts, `getOrderBook`: its pages are the levels of the resting orders,
-- and it agrees with the best prices of `getStats`.
use exchange_matching.Base.{
  ℕ, zero, suc, ◌*◌, ◌≡◌, ◌≤◌, ◌<◌, ◌⊎◌, not, true, ==→eq, refl, ◌∙◌, sym, ap, arith, List, [], ◌∷◌,
  Option, none, some, map, if◌then◌else◌, Bool-cases, inl, inr,
}
use exchange_matching.Table.{find, where_rows, length, limit, skip}
use exchange_matching.Database.{Order, Side, buy, sell, Status, opened, partially_filled}
use exchange_matching.OrderBook.{find_first, is_resting}
use exchange_matching.OrderBook.Rules.{is_resting-Rests}
use exchange_matching.Outbox.{Every}
use exchange_matching.Queries.Selection.{IsSelection, where_rows-IsSelection}
use exchange_matching.Pagination.{rows_of_page, total_pages_of, build_paginated_response}
use exchange_matching.Pagination.Pages.{collect-map, rows_of_page_complete}
use exchange_matching.Queries.Texts.{Texts}
use exchange_matching.Queries.Market.{
  Level, add_to_levels, group_by_price, is_better_price, is_in_book, is_ahead, price_of, best_price,
  has_price, is_side, rests_on, find_order_book_levels, OrderBookLevel, to_order_book_level,
  get_order_book,
}
use exchange_matching.Queries.Levels.{
  IsRanked, level_at, level_key, group_by_price-IsRanked, group_by_price-level_at,
}
use exchange_matching.Queries.Listing.{all_pages}

-- An order of the side that rests in the book, at the price if one is asked for.
abbrev pub AtPrice : Option ℕ → ℕ → Type 0
AtPrice none price = Unit {0}
AtPrice (some p) price = price ≡ p

pub record RestsOn (side : Side) (price : Option ℕ) (o : Order) : Type 0 where
  pub of_side : o.side ≡ side
  pub rests : (o.status ≡ opened) ⊎ (o.status ≡ partially_filled)
  pub at_price : AtPrice price o.price

-- Bids from the highest price, asks from the lowest, each price once.
abbrev pub BestFirst : Side → List Level → Type 0
BestFirst side [] = Unit {0}
BestFirst buy (l ∷ ls) = Every (λ m. m.price < l.price) ls × BestFirst buy ls
BestFirst sell (l ∷ ls) = Every (λ m. l.price < m.price) ls × BestFirst sell ls

-- `items` shows the levels, from the best to the worst, and the level of a price is what the resting
-- orders at it have left.
pub record IsBook (x : Texts) (side : Side) (price : Option ℕ) (orders : List Order)
    (items : List (OrderBookLevel x)) : Type 0 where
  pub levels : List Level
  pub resting : List Order
  pub others : List Order
  pub selected : IsSelection (RestsOn side price) orders resting others
  pub shows_all : items ≡ map (to_order_book_level x side) levels
  pub ranked : BestFirst side levels
  pub level_eq : (p : ℕ) → find level_key p levels ≡ level_at p resting

status_of_resting : (s : Status) → is_resting s ≡ true → (s ≡ opened) ⊎ (s ≡ partially_filled)
status_of_resting s h = is_resting-Rests s h

has_price-AtPrice : (v : Option ℕ) (p : ℕ) → has_price v p ≡ true → AtPrice v p
has_price-AtPrice none p h = tt
has_price-AtPrice (some q) p h = ==→eq p q h

AtPrice-has_price : (v : Option ℕ) (p : ℕ) → AtPrice v p → has_price v p ≡ true
AtPrice-has_price none p h = refl
AtPrice-has_price (some q) p h = ground (arith, h)

side_eq : (s t : Side) → is_side s t ≡ true → s ≡ t
side_eq buy buy h = refl
side_eq buy sell h = ground arith
side_eq sell buy h = ground arith
side_eq sell sell h = refl

is_side_refl : (s t : Side) → s ≡ t → is_side s t ≡ true
is_side_refl buy t h = rw⁻¹ h refl
is_side_refl sell t h = rw⁻¹ h refl

resting_of_status : (s : Status) → (s ≡ opened) ⊎ (s ≡ partially_filled) → is_resting s ≡ true
resting_of_status s (inl e) = ground (arith, e)
resting_of_status s (inr e) = ground (arith, e)

is_in_book-RestsOn :
    (side : Side) (price : Option ℕ) (o : Order)
    → is_in_book side price o ≡ true
    → RestsOn side price o
unfolding is_in_book
is_in_book-RestsOn side price o h = record {
  of_side = side_eq o.side side (ground (arith, h));
  rests = status_of_resting o.status (ground (arith, h));
  at_price = has_price-AtPrice price o.price (ground (arith, h));
}

RestsOn-is_in_book :
    (side : Side) (price : Option ℕ) (o : Order)
    → RestsOn side price o
    → is_in_book side price o ≡ true
unfolding is_in_book
RestsOn-is_in_book side price o r = ground (
  arith,
  is_side_refl o.side side r.of_side,
  resting_of_status o.status r.rests,
  AtPrice-has_price price o.price r.at_price,
)

lower_prices :
    (p : ℕ) (ls : List Level)
    → Every (λ m. is_better_price buy p m.price ≡ true) ls
    → Every (λ m. m.price < p) ls
lower_prices p [] h = tt
lower_prices p (l ∷ ls) (h, hs) = (ground (arith, h), lower_prices p ls hs)

higher_prices :
    (p : ℕ) (ls : List Level)
    → Every (λ m. is_better_price sell p m.price ≡ true) ls
    → Every (λ m. p < m.price) ls
higher_prices p [] h = tt
higher_prices p (l ∷ ls) (h, hs) = (ground (arith, h), higher_prices p ls hs)

IsRanked-BestFirst : (side : Side) (ls : List Level) → IsRanked side ls → BestFirst side ls
IsRanked-BestFirst buy [] h = tt
IsRanked-BestFirst sell [] h = tt
IsRanked-BestFirst buy (l ∷ ls) (h, hs) = (lower_prices l.price ls h, IsRanked-BestFirst buy ls hs)
IsRanked-BestFirst sell (l ∷ ls) (h, hs) =
    (higher_prices l.price ls h, IsRanked-BestFirst sell ls hs)

module _ (x : Texts) (side : Side) (size : ℕ) (price : Option ℕ) (orders : List Order)
    (some_size : 1 ≤ size) where
  -- For a page size of at least 1, the items of all pages that `get_order_book` counts show
  -- levels, bids from the highest price to the lowest and asks from the lowest to the
  -- highest, each price once. The level of any price is what the resting orders at that
  -- price have left and how many they are, or none if there are none, where the resting
  -- orders are the rows of the table on the side that are open or partially filled, at the
  -- price that is asked for if one is.
  pub get_order_book-IsBook :
      IsBook x side price orders (all_pages (λ page. get_order_book x side page size price orders))
  unfolding get_order_book find_order_book_levels build_paginated_response
  get_order_book-IsBook =
      let levels = group_by_price side (where_rows (is_in_book side price) orders) in
      record {
        levels = levels;
        resting = where_rows (is_in_book side price) orders;
        others = where_rows (λ o. not (is_in_book side price o)) orders;
        selected =
            where_rows-IsSelection (RestsOn side price) (is_in_book side price)
              (RestsOn-is_in_book side price) (is_in_book-RestsOn side price) orders;
        shows_all =
            collect-map (to_order_book_level x side) (λ page. rows_of_page page size levels)
              (total_pages_of (length levels) size)
            ∙ ap (map (to_order_book_level x side)) (rows_of_page_complete size levels some_size);
        ranked =
            IsRanked-BestFirst side levels
              (group_by_price-IsRanked side (where_rows (is_in_book side price) orders));
        level_eq = λ p. group_by_price-level_at side p (where_rows (is_in_book side price) orders);
      }

abbrev pub first_level : List Level → Option ℕ
first_level [] = none
first_level (l ∷ ls) = some l.price

-- The better of a price and of what there was.
abbrev better_of : Side → ℕ → Option ℕ → Option ℕ
better_of side p none = some p
better_of side p (some q) = if is_better_price side q p then some q else some p

first_level-add :
    (side : Side) (o : Order) (ls : List Level)
    → first_level (add_to_levels side o ls) ≡ better_of side o.price (first_level ls)
unfolding add_to_levels
first_level-add side o [] = refl
first_level-add buy o (l ∷ ls) = ground arith
first_level-add sell o (l ∷ ls) = ground arith

first_found :
    (side : Side) (o : Order) (best : Option Order)
    → price_of (elim best [ none ↦ some o | some b ↦ some (if is_ahead side b o then b else o) ])
      ≡ better_of side o.price (price_of best)
first_found side o none = refl
first_found buy o (some b) = ground arith
first_found sell o (some b) = ground arith

best_price-group :
    (side : Side) (os : List Order)
    → best_price side os ≡ first_level (group_by_price side (where_rows (is_in_book side none) os))
unfolding best_price find_first group_by_price where_rows is_in_book
best_price-group side [] = refl
best_price-group side (o ∷ os) = elim (Bool-cases (rests_on side o)) [
  | inr out ↦ ground (arith, out, best_price-group side os)
  | inl resting ↦ rw resting (
      first_found side o (find_first (rests_on side) (is_ahead side) os)
      ∙ ap (better_of side o.price) (best_price-group side os)
      ∙ sym (first_level-add side o (group_by_price side (where_rows (is_in_book side none) os))))
]

first_level-limit :
    (size : ℕ) (ls : List Level) → 1 ≤ size → first_level (limit size ls) ≡ first_level ls
unfolding limit
first_level-limit zero ls h = ground arith
first_level-limit (suc n) [] h = refl
first_level-limit (suc n) (l ∷ ls) h = refl

-- For a page size of at least 1, `best_price` is the price of the first level on the first
-- page of the book of the side, and there is none if the page is empty.
pub best_price-first_level :
    (side : Side) (size : ℕ) (orders : List Order)
    → 1 ≤ size
    → best_price side orders ≡ first_level (find_order_book_levels side 1 size none orders).0
unfolding find_order_book_levels rows_of_page skip
best_price-first_level side size orders h =
    let levels = group_by_price side (where_rows (is_in_book side none) orders) in
    let nothing : 0 ≡ 0 * size = omega arith in
    best_price-group side orders
    ∙ sym (first_level-limit size levels h)
    ∙ ap (λ n. first_level (limit size (skip n levels))) nothing
