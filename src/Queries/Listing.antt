-- ===== src/Queries/Listing.antt =====
-- backend/src/orders/orders.service.ts, `getActiveOrders`, backend/src/market/market.service.ts,
-- `getMatches`, and backend/src/trades/trades.service.ts, `getUserHistory`: their pages, read one after
-- the other while nothing changes, are the whole list.
use exchange_matching.Base.{
  ℕ, ◌≡◌, ◌≤◌, ◌<◌, ◌⊎◌, inl, inr, Bool-cases, refl, sym, ap, ◌∙◌, arith, Bool, true, false, not,
  List, [], ◌∷◌, Option, none, some, map,
}
use exchange_matching.Table.{sum_by, where_rows, sort_rows, length}
use exchange_matching.Database.{
  Order, Trade, Status, queued, opened, partially_filled, filled, cancelled, rejected,
}
use exchange_matching.Orders.{is_active_status}
use exchange_matching.Queries.Selection.{IsSelection, sort_rows-IsSelection}
use exchange_matching.Pagination.{
  total_pages_of, rows_of_page, build_paginated_response, PaginatedResponse,
}
use exchange_matching.Pagination.Pages.{collect, collect-map, rows_of_page_complete}
use exchange_matching.Queries.Texts.{Texts, is_newer, has_prefix, build_id_prefix_filter}
use exchange_matching.Queries.Orders.{
  OrderSummary, to_order_summary, is_active_of, is_newer_order, find_active_orders,
  get_active_orders,
}
use exchange_matching.Queries.Market.{
  to_market_match_summary, is_match, is_newer_trade, find_matches, get_matches,
}
use exchange_matching.Queries.Trades.{
  history_item, is_trade_of, find_user_history, get_user_history,
}
use exchange_matching.Queries.Sorting.{
  sum_by-sort_rows, length-sort_rows, IsSorted, IsBehind, sort_rows-IsSorted,
}

-- The pages of a query, from the first to the last that its first page counts.
abbrev pub all_pages : {Item : Type 0} → (page : ℕ → PaginatedResponse Item) → List Item
all_pages page = collect (λ n. (page n).items) (page 1).pagination.total_pages

-- `shown` are the rows that match, each as often as it stands in the table, in order; `items` shows them.
pub record IsListing {A Item : Type 0} (test : A → Bool) (before : A → A → Bool) (show : A → Item)
    (table : List A) (items : List Item) : Type 0 where
  pub shown : List A
  pub shows_all : items ≡ map show shown
  pub exactly : (f : A → ℕ) → sum_by f shown ≡ sum_by f (where_rows test table)
  pub in_order : IsSorted before shown

module _ {A Item : Type 0} (test : A → Bool) (before : A → A → Bool) (show : A → Item)
    (one_way : (a b : A) → before a b ≡ true → before b a ≡ false) (table : List A) (size : ℕ)
    (some_size : 1 ≤ size) where
  pages_eq :
      collect
        (λ page. map show (rows_of_page page size (sort_rows before (where_rows test table))))
        (total_pages_of (length (where_rows test table)) size)
      ≡ map show (sort_rows before (where_rows test table))
  pages_eq =
      ap
        (collect
          (λ page. map show (rows_of_page page size (sort_rows before (where_rows test table)))))
        (ap (λ n. total_pages_of n size) (sym (length-sort_rows before (where_rows test table))))
      ∙ collect-map show (λ page. rows_of_page page size (sort_rows before (where_rows test table)))
          (total_pages_of (length (sort_rows before (where_rows test table))) size)
      ∙ ap (map show)
          (rows_of_page_complete size (sort_rows before (where_rows test table)) some_size)

  pages-IsListing : IsListing test before show table (
      collect
        (λ page. map show (rows_of_page page size (sort_rows before (where_rows test table))))
        (total_pages_of (length (where_rows test table)) size))
  pages-IsListing = record {
    shown = sort_rows before (where_rows test table);
    shows_all = pages_eq;
    exactly = λ f. sum_by-sort_rows before f (where_rows test table);
    in_order = sort_rows-IsSorted before one_way (where_rows test table);
  }

is_newer_one_way :
    (x : Texts) (i s j t : ℕ) → is_newer x i s j t ≡ true → is_newer x j t i s ≡ false
is_newer_one_way x i s j t h = ground arith

-- An order of the user that still holds a reservation, and whose id begins with the text that is asked
-- for, trimmed, unless there is none.
abbrev pub MatchesId : (x : Texts) → Option x.Text → (id : ℕ) → Type 0
MatchesId x none id = Unit {0}
MatchesId x (some text) id =
    (x.is_empty (x.trim text) ≡ true) ⊎ (x.starts_with (x.trim text) (x.id_text id) ≡ true)

pub record IsActiveOf (x : Texts) (user_id : ℕ) (id : Option x.Text) (o : Order) : Type 0 where
  pub owned : o.user_id ≡ user_id
  pub active : (o.status ≡ queued) ⊎ ((o.status ≡ opened) ⊎ (o.status ≡ partially_filled))
  pub found : MatchesId x id o.id

-- Created later than the other, or at the same time with no lower number.
abbrev pub NotOlder : (x : Texts) (a b : Order) → Type 0
NotOlder x a b =
    (x.created_at b.id < x.created_at a.id)
    ⊎ ((x.created_at a.id ≡ x.created_at b.id) × (b.sequence ≤ a.sequence))

abbrev pub IsBefore : (x : Texts) → Order → List Order → Type 0
IsBefore x a [] = Unit {0}
IsBefore x a (b ∷ os) = NotOlder x a b

-- Each is not older than the next.
abbrev pub NewestFirst : (x : Texts) → List Order → Type 0
NewestFirst x [] = Unit {0}
NewestFirst x (a ∷ os) = IsBefore x a os × NewestFirst x os

-- `shown` are the active orders of the user, the newest first; `items` shows them.
pub record IsActiveListing (x : Texts) (user_id : ℕ) (id : Option x.Text) (orders : List Order)
    (items : List (OrderSummary x)) : Type 0 where
  pub shown : List Order
  pub others : List Order
  pub selected : IsSelection (IsActiveOf x user_id id) orders shown others
  pub shows_all : items ≡ map (to_order_summary x) shown
  pub newest_first : NewestFirst x shown

status_of_active :
    (s : Status)
    → is_active_status s ≡ true
    → (s ≡ queued) ⊎ ((s ≡ opened) ⊎ (s ≡ partially_filled))
status_of_active queued h = inl refl
status_of_active opened h = inr (inl refl)
status_of_active partially_filled h = inr (inr refl)
status_of_active filled h = ground arith
status_of_active cancelled h = ground arith
status_of_active rejected h = ground arith

active_of_status :
    (s : Status)
    → (s ≡ queued) ⊎ ((s ≡ opened) ⊎ (s ≡ partially_filled))
    → is_active_status s ≡ true
active_of_status s (inl e) = ground (arith, e)
active_of_status s (inr (inl e)) = ground (arith, e)
active_of_status s (inr (inr e)) = ground (arith, e)

module _ (x : Texts) where
  prefix-MatchesId :
      (text : Option x.Text) (id : ℕ)
      → has_prefix x (build_id_prefix_filter x text) id ≡ true
      → MatchesId x text id
  prefix-MatchesId none id h = tt
  prefix-MatchesId (some t) id h = elim (Bool-cases (x.is_empty (x.trim t))) [
    | inl empty ↦ inl empty
    | inr filled_in ↦ inr (ground (arith, h, filled_in))
  ]

  MatchesId-prefix :
      (text : Option x.Text) (id : ℕ)
      → MatchesId x text id
      → has_prefix x (build_id_prefix_filter x text) id ≡ true
  MatchesId-prefix none id h = refl
  MatchesId-prefix (some t) id (inl empty) = ground (arith, empty)
  MatchesId-prefix (some t) id (inr begins) = elim (Bool-cases (x.is_empty (x.trim t))) [
    | inl empty ↦ ground (arith, empty)
    | inr filled_in ↦ ground (arith, filled_in, begins)
  ]

  is_active_of-IsActiveOf :
      (user_id : ℕ) (id : Option x.Text) (o : Order)
      → is_active_of x user_id id o ≡ true
      → IsActiveOf x user_id id o
  unfolding is_active_of
  is_active_of-IsActiveOf user_id id o h = record {
    owned = ground (arith, h);
    active = status_of_active o.status (ground (arith, h));
    found = prefix-MatchesId id o.id (ground (arith, h));
  }

  IsActiveOf-is_active_of :
      (user_id : ℕ) (id : Option x.Text) (o : Order)
      → IsActiveOf x user_id id o
      → is_active_of x user_id id o ≡ true
  unfolding is_active_of
  IsActiveOf-is_active_of user_id id o a =
      ground (arith, a.owned, active_of_status o.status a.active, MatchesId-prefix id o.id a.found)

  not_newer-NotOlder : (a b : Order) → is_newer_order x b a ≡ false → NotOlder x a b
  not_newer-NotOlder a b h = ground (arith, h)

  IsBehind-IsBefore :
      (a : Order) (os : List Order) → IsBehind (is_newer_order x) a os → IsBefore x a os
  IsBehind-IsBefore a [] h = tt
  IsBehind-IsBefore a (b ∷ os) h = not_newer-NotOlder a b h

  IsSorted-NewestFirst : (os : List Order) → IsSorted (is_newer_order x) os → NewestFirst x os
  IsSorted-NewestFirst [] h = tt
  IsSorted-NewestFirst (a ∷ os) h = (IsBehind-IsBefore a os h.0, IsSorted-NewestFirst os h.1)

module _ (x : Texts) (user_id size : ℕ) (id : Option x.Text) (orders : List Order)
    (trades : List Trade) (some_size : 1 ≤ size) where
  -- For a page size of at least 1, the items of all pages that `get_active_orders` counts,
  -- one page after the other, show rows of the table, each as often as it stands there:
  -- those of the user that are queued, open or partially filled and whose id begins with the
  -- text that is asked for, trimmed, if it is given and not empty, and none else. Each was
  -- created later than the next, or at the same time with no lower number.
  pub get_active_orders-IsActiveListing :
      IsActiveListing x user_id id orders
        (all_pages (λ page. get_active_orders x user_id page size id orders))
  unfolding get_active_orders find_active_orders build_paginated_response
  get_active_orders-IsActiveListing = record {
    shown = sort_rows (is_newer_order x) (where_rows (is_active_of x user_id id) orders);
    others = where_rows (λ o. not (is_active_of x user_id id o)) orders;
    selected =
        sort_rows-IsSelection (IsActiveOf x user_id id) (is_active_of x user_id id)
          (IsActiveOf-is_active_of x user_id id) (is_active_of-IsActiveOf x user_id id)
          (is_newer_order x) orders;
    shows_all =
        pages_eq (is_active_of x user_id id) (is_newer_order x) (to_order_summary x)
          (λ a b. is_newer_one_way x a.id a.sequence b.id b.sequence) orders size some_size;
    newest_first = IsSorted-NewestFirst x _ (
        sort_rows-IsSorted (is_newer_order x)
          (λ a b. is_newer_one_way x a.id a.sequence b.id b.sequence)
          (where_rows (is_active_of x user_id id) orders));
  }

  -- The pages of all trades, read one after the other, are the trades that match, the newest first.
  pub get_matches-IsListing :
      IsListing
        (is_match x id)
        (is_newer_trade x)
        (to_market_match_summary x)
        trades
        (all_pages (λ page. get_matches x page size id trades))
  unfolding get_matches find_matches build_paginated_response
  get_matches-IsListing =
      pages-IsListing (is_match x id) (is_newer_trade x) (to_market_match_summary x)
        (λ a b. is_newer_one_way x a.id a.id b.id b.id) trades size some_size

  -- The same of the trades of a user.
  pub get_user_history-IsListing :
      IsListing
        (is_trade_of x user_id id orders)
        (is_newer_trade x)
        (history_item x user_id orders)
        trades
        (all_pages (λ page. get_user_history x user_id page size id orders trades))
  unfolding get_user_history find_user_history build_paginated_response
  get_user_history-IsListing =
      pages-IsListing (is_trade_of x user_id id orders) (is_newer_trade x)
        (history_item x user_id orders) (λ a b. is_newer_one_way x a.id a.id b.id b.id) trades size
        some_size
