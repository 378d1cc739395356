-- ===== src/Ledger/Waiting.antt =====
-- What a transaction may rely on while it waits for a lock: others commit, but each of them keeps
-- reserves in step with orders, makes no money, and leaves the rows alone that are locked. No order
-- enters the book, since that takes the lock on the market, and no statement of the program changes
-- the price or the sequence number of an order. `Traffic` shows it of the requests of users.
use exchange_matching.Base.{ℕ, ◌≤◌, ◌≡◌, List, Option, some, true, if◌then◌else◌}
use exchange_matching.Table.{find, sum_by}
use exchange_matching.Database.{Db, Order, order_key}
use exchange_matching.OrderBook.{Waits, MakerCursor, is_candidate, is_resting}
use exchange_matching.Matching.{contains}
use exchange_matching.Ledger.{ValidBut, usd_total, btc_total}

-- How many orders the query for candidates can still return.
unfoldable pub ahead : (taker : Order) → Option MakerCursor → List Order → ℕ
ahead taker cursor = sum_by (λ o. if is_candidate taker cursor o then 1 else 0)

-- The database at the two ends of a wait.
pub record Quiet (locked : List ℕ) (d d' : Db) : Type 0 where
  pub keeps_valid : (t t' : Order) → ValidBut t t' d → ValidBut t t' d'
  pub keeps_rows :
      (j : ℕ) (o : Order)
      → contains j locked ≡ true
      → find order_key j d.orders ≡ some o
      → find order_key j d'.orders ≡ some o
  pub keeps_place :
      (j : ℕ) (o o' : Order)
      → find order_key j d.orders ≡ some o
      → find order_key j d'.orders ≡ some o'
      → (o'.price ≡ o.price) × (o'.sequence ≡ o.sequence)
  pub keeps_ahead :
      (taker : Order) (cursor : Option MakerCursor)
      → ahead taker cursor d'.orders ≤ ahead taker cursor d.orders
  pub rests_before :
      (j : ℕ) (o : Order)
      → find order_key j d'.orders ≡ some o
      → is_resting o.status ≡ true
      → find order_key j d.orders ≡ some o
  pub keeps_usd : usd_total d' ≡ usd_total d
  pub keeps_btc : btc_total d' ≡ btc_total d

-- Every wait is quiet that starts in a database whose money is in step.
pub record Isolated (waits : Waits) : Type 0 where
  pub order_wait :
      (locked : List ℕ) (id : ℕ) (t t' : Order) (d : Db)
      → ValidBut t t' d
      → Quiet locked d (waits.for_order locked id d)
  pub wallets_wait :
      (locked : List ℕ) (user : ℕ) (t t' : Order) (d : Db)
      → ValidBut t t' d
      → Quiet locked d (waits.for_wallets locked user d)
