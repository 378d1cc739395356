-- ===== src/Frontend/Refresh.antt =====
-- frontend/src/app/query-keys.ts, frontend/src/features/exchange/exchange-query-invalidation.ts and
-- frontend/src/hooks/useExchangeRealtime.ts: which queries are fetched again after an event. A part of a
-- key is a text, which is a number here, or a value that a query was asked with.
use exchange_matching.Base.{
  ℕ, ◌==◌, ◌&&◌, ◌||◌, ◌≡◌, refl, not, Bool, true, false, List, [], ◌∷◌, ◌++◌, Option, none, some,
}
use exchange_matching.Text.{Text}
use exchange_matching.Database.{Side, Event, market_changed, account_changed}
use exchange_matching.Frontend.Tables.{PaginatedQuery}

-- The texts of keys.
pub data Name : Type 0 where
  me_name wallet_name market_name stats_name matches_name order_book_name orders_name : Name
  active_name trades_name history_name : Name

-- The place of a text among them, by which texts are compared.
abbrev place_of : Name → ℕ
place_of me_name = 0
place_of wallet_name = 1
place_of market_name = 2
place_of stats_name = 3
place_of matches_name = 4
place_of order_book_name = 5
place_of orders_name = 6
place_of active_name = 7
place_of trades_name = 8
place_of history_name = 9

-- `price ?? ''`
abbrev or_empty : Option Text → Text
or_empty none = []
or_empty (some price) = price

-- A part of a key.
pub data KeyPart : Type 0 where
  name : Name → KeyPart
  query_part : PaginatedQuery → KeyPart
  side_part : Side → KeyPart
  number_part : ℕ → KeyPart
  text_part : Text → KeyPart

abbrev pub QueryKey : Type 0
QueryKey = List KeyPart

-- The queries of the user interface.
pub data Query : Type 0 where
  me wallet market_stats : Query
  market_matches : PaginatedQuery → Query
  order_book : Side → (page page_size : ℕ) → (price : Option Text) → Query
  active_orders : PaginatedQuery → Query
  trade_history : PaginatedQuery → Query

-- `queryKeys`
unfoldable pub key_of : Query → QueryKey
key_of me = name me_name ∷ []
key_of wallet = name wallet_name ∷ []
key_of market_stats = name market_name ∷ name stats_name ∷ []
key_of (market_matches query) = name market_name ∷ name matches_name ∷ query_part query ∷ []
key_of (order_book side page page_size price) =
    name market_name
    ∷ name order_book_name
    ∷ side_part side
    ∷ number_part page
    ∷ number_part page_size
    ∷ text_part (or_empty price)
    ∷ []
key_of (active_orders query) = name orders_name ∷ name active_name ∷ query_part query ∷ []
key_of (trade_history query) = name trades_name ∷ name history_name ∷ query_part query ∷ []

-- MARKET_QUERY_KEYS and ACCOUNT_QUERY_KEYS, all of whose parts are texts.
abbrev pub market_query_keys : List (List Name)
market_query_keys =
    (market_name ∷ stats_name ∷ [])
    ∷ (market_name ∷ matches_name ∷ [])
    ∷ (market_name ∷ order_book_name ∷ [])
    ∷ []

abbrev pub account_query_keys : List (List Name)
account_query_keys =
    (me_name ∷ [])
    ∷ (wallet_name ∷ [])
    ∷ (orders_name ∷ active_name ∷ [])
    ∷ (trades_name ∷ history_name ∷ [])
    ∷ []

-- `ExchangeInvalidationScope`
pub data Scope : Type 0 where
  market_scope account_scope all_scope : Scope

abbrev pub keys_of_scope : Scope → List (List Name)
keys_of_scope market_scope = market_query_keys
keys_of_scope account_scope = account_query_keys
keys_of_scope all_scope = market_query_keys ++ account_query_keys

abbrev is_name : Name → KeyPart → Bool
is_name n (name m) = place_of n == place_of m
is_name n (query_part query) = false
is_name n (side_part side) = false
is_name n (number_part number) = false
is_name n (text_part text) = false

-- A query goes with each key that its own begins with, as `invalidateQueries` finds them.
abbrev pub begins_with : List Name → QueryKey → Bool
begins_with [] key = true
begins_with (n ∷ ns) [] = false
begins_with (n ∷ ns) (part ∷ parts) = is_name n part && begins_with ns parts

abbrev pub begins_with_some : List (List Name) → QueryKey → Bool
begins_with_some [] key = false
begins_with_some (root ∷ roots) key = begins_with root key || begins_with_some roots key

-- `invalidateExchangeQueries`: whether the query is fetched again.
unfoldable pub is_invalidated : Scope → Query → Bool
unfolding key_of
is_invalidated scope query = begins_with_some (keys_of_scope scope) (key_of query)

-- The listeners of `useExchangeRealtime`: the scope of an event that arrives.
abbrev pub scope_of_event : Event → Scope
scope_of_event (market_changed reason order_id trade_ids) = market_scope
scope_of_event (account_changed reason order_id trade_ids user_id) = account_scope

-- A command has every query fetched again, and each query is fetched again for one kind of events.
pub is_invalidated-scopes :
    (query : Query)
    → (is_invalidated all_scope query ≡ true)
      × (is_invalidated account_scope query ≡ not (is_invalidated market_scope query))
unfolding is_invalidated key_of
is_invalidated-scopes me = (refl, refl)
is_invalidated-scopes wallet = (refl, refl)
is_invalidated-scopes market_stats = (refl, refl)
is_invalidated-scopes (market_matches q) = (refl, refl)
is_invalidated-scopes (order_book s p z x) = (refl, refl)
is_invalidated-scopes (active_orders q) = (refl, refl)
is_invalidated-scopes (trade_history q) = (refl, refl)
