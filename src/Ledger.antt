-- ===== src/Ledger.antt =====
-- What the money of the exchange must satisfy, whatever the services do: the specification behind
-- backend/src/wallets, backend/src/orders and backend/src/matching.
pub mod Holds
pub mod Moves
pub mod Append
pub mod Waiting
use exchange_matching.Base.{
  ℕ, ◌+◌, ◌==◌, ◌&&◌, ◌≤◌, ◌≡◌, ◌≢◌, List, [], ◌∷◌, some, none, true, Bool, false, if◌then◌else◌,
}
use exchange_matching.Table.{find, sum_by}
use exchange_matching.Decimal.{decimal_max}
use exchange_matching.Decimal.Laws.{cost}
use exchange_matching.Database.{
  Db, Order, Wallet, Trade, Asset, btc, usd, Side, buy, sell, order_key, wallet_key, order_check,
}
use exchange_matching.Orders.{is_active_status}

abbrev pub usd_of : Wallet → ℕ
usd_of w = w.available_usd + w.reserved_usd

abbrev pub btc_of : Wallet → ℕ
btc_of w = w.available_btc + w.reserved_btc

abbrev pub is_buy : Side → Bool
is_buy buy = true
is_buy sell = false

abbrev pub is_sell : Side → Bool
is_sell buy = false
is_sell sell = true

-- What an order holds of a user's reserved USD: the rounded cost of what is left of it.
unfoldable pub hold_usd : (user_id : ℕ) → Order → ℕ
hold_usd u o =
    if o.user_id == u && (is_active_status o.status && is_buy o.side)
    then cost o.remaining_amount o.price
    else 0

-- What it holds of the reserved BTC: what is left of it.
unfoldable pub hold_btc : (user_id : ℕ) → Order → ℕ
hold_btc u o =
    if o.user_id == u && (is_active_status o.status && is_sell o.side)
    then o.remaining_amount
    else 0

-- The fees of a trade in each asset.
abbrev fee_in_usd : Asset → ℕ → ℕ
fee_in_usd usd n = n
fee_in_usd btc n = 0

abbrev fee_in_btc : Asset → ℕ → ℕ
fee_in_btc usd n = 0
fee_in_btc btc n = n

abbrev pub usd_fees : Trade → ℕ
usd_fees t =
    fee_in_usd t.maker_fee_asset t.maker_fee_amount
    + fee_in_usd t.taker_fee_asset t.taker_fee_amount

abbrev pub btc_fees : Trade → ℕ
btc_fees t =
    fee_in_btc t.maker_fee_asset t.maker_fee_amount
    + fee_in_btc t.taker_fee_asset t.taker_fee_amount

-- All the money that users ever brought in: what the wallets hold, and the fees of the trades.
unfoldable pub usd_total : Db → ℕ
usd_total d = sum_by usd_of d.wallets + sum_by usd_fees d.trades

unfoldable pub btc_total : Db → ℕ
btc_total d = sum_by btc_of d.wallets + sum_by btc_fees d.trades

-- A column `r` of every wallet, with `left` added, is `right` at its user.
abbrev pub Covers : (r : Wallet → ℕ) (left right : ℕ → ℕ) → List Wallet → Type 0
Covers r left right ws =
    (u : ℕ) (w : Wallet) → find wallet_key u ws ≡ some w → r w + left u ≡ right u

-- The primary key: no id stands twice.
abbrev pub Apart : (id : ℕ) → List Order → Type 0
Apart id [] = Unit {0}
Apart id (o ∷ os) = (o.id ≢ id) × Apart id os

abbrev pub Distinct : List Order → Type 0
Distinct [] = Unit {0}
Distinct (o ∷ os) = Apart o.id os × Distinct os

-- What holds of the rows, whoever owns the money. The money in all wallets fits a column, so no
-- credit can overflow.
pub record Sound (ws : List Wallet) (os : List Order) (next : ℕ) : Type 0 where
  pub usd_fits : sum_by usd_of ws ≤ decimal_max
  pub btc_fits : sum_by btc_of ws ≤ decimal_max
  pub rows_checked : (id : ℕ) (o : Order) → find order_key id os ≡ some o → order_check o ≡ true
  pub rows_fit :
      (id : ℕ) (o : Order)
      → find order_key id os ≡ some o
      → (o.original_amount ≤ decimal_max) × (o.price ≤ decimal_max)
  pub owned :
      (id : ℕ) (o : Order)
      → find order_key id os ≡ some o
      → (w : Wallet) × (find wallet_key o.user_id ws ≡ some w)
  pub distinct : Distinct os
  pub fresh : (id : ℕ) → next ≤ id → find order_key id os ≡ none

-- Every reserved balance is the sum of what the orders hold, but for one order `t` that is accounted
-- for as `t'`: the taker, whose row the matching loop writes at its end.
pub record ValidBut (t t' : Order) (d : Db) : Type 0 where
  pub sound : Sound d.wallets d.orders d.next_order
  pub usd_backed :
      Covers
        (λ w. w.reserved_usd)
        (λ u. hold_usd u t)
        (λ u. sum_by (hold_usd u) d.orders + hold_usd u t')
        d.wallets
  pub btc_backed :
      Covers
        (λ w. w.reserved_btc)
        (λ u. hold_btc u t)
        (λ u. sum_by (hold_btc u) d.orders + hold_btc u t')
        d.wallets

-- The invariant between transactions: every reserved balance is exactly what the active orders hold.
pub record Valid (d : Db) : Type 0 where
  pub sound : Sound d.wallets d.orders d.next_order
  pub usd_reserved :
      (u : ℕ) (w : Wallet)
      → find wallet_key u d.wallets ≡ some w
      → w.reserved_usd ≡ sum_by (hold_usd u) d.orders
  pub btc_reserved :
      (u : ℕ) (w : Wallet)
      → find wallet_key u d.wallets ≡ some w
      → w.reserved_btc ≡ sum_by (hold_btc u) d.orders
