-- ===== src/Traffic.antt =====
-- What users do while a matching transaction waits: backend/src/orders/orders.service.ts serves their
-- requests in transactions of their own, and a failed matching job rejects its order.
pub mod Steps
pub mod Withdrawals
pub mod Arrivals
pub mod Isolation
pub mod Running
pub mod Exchange
pub mod Departures
pub mod Redelivery
pub mod Attempts
use exchange_matching.Base.{
  ℕ, ◌==◌, ◌||◌, Bool, true, false, List, [], ◌∷◌, Result, ok, err, if◌then◌else◌,
}
use exchange_matching.Decimal.{DecimalValue}
use exchange_matching.Decimal.Input.{check_positive_decimal}
use exchange_matching.Database.{Db, Side}
use exchange_matching.Orders.{create_order, cancel_order}
use exchange_matching.Matching.{reject_order, contains}
use exchange_matching.OrderBook.{Waits}

-- The requests that reach the database, with the inputs as they are parsed.
pub data Request : Type 0 where
  create : (user_id : ℕ) → Side → (amount price : DecimalValue) → Request
  cancel : (user_id order_id : ℕ) → Request
  reject : (order_id : ℕ) → Request

-- What a transaction leaves: nothing of it stays if it throws.
abbrev pub commit : {A : Type 0} → Result (A × Db) → Db → Db
commit (ok r) d = r.1
commit (err e) d = d

unfoldable pub serve : Request → Db → Db
serve (create u s amount price) d =
    commit (create_order u s (check_positive_decimal amount) (check_positive_decimal price) d) d
serve (cancel u id) d = commit (cancel_order u id d) d
serve (reject id) d = commit (reject_order id d) d

-- A request that wants a locked row waits itself until the transaction that holds the lock has ended.
abbrev pub is_blocked : (locked : List ℕ) → Request → Bool
is_blocked locked (create u s amount price) = false
is_blocked locked (cancel u id) = contains id locked
is_blocked locked (reject id) = contains id locked

unfoldable pub serve_all : (locked : List ℕ) → List Request → Db → Db
unfolding serve
serve_all locked [] d = d
serve_all locked (r ∷ rs) d = serve_all locked rs (if is_blocked locked r then d else serve r d)

-- Which requests are served during each wait, in their order.
pub record Schedule : Type 0 where
  pub for_order : (locked : List ℕ) (id : ℕ) → List Request
  pub for_wallets : (locked : List ℕ) (user_id : ℕ) → List Request

abbrev pub waits_of : Schedule → Waits
waits_of s = record {
  for_order = λ locked id d. serve_all locked (s.for_order locked id) d;
  for_wallets = λ locked user d. serve_all locked (s.for_wallets locked user) d;
}
