-- ===== src/Database/Rows.antt =====
-- The rows of the tables in backend/prisma/schema.prisma. What only lists and logs read, such as
-- `created_at`, is left out.
use exchange_matching.Base.{ℕ, List}

-- `BUY` and `SELL`.
pub data Side : Type 0 where
  buy sell : Side

-- `opened` is `OPEN`.
pub data Status : Type 0 where
  queued opened partially_filled filled cancelled rejected : Status

pub data Asset : Type 0 where
  btc usd : Asset

pub record Wallet : Type 0 where
  pub user_id : ℕ
  pub available_btc : ℕ
  pub reserved_btc : ℕ
  pub available_usd : ℕ
  pub reserved_usd : ℕ

pub record Order : Type 0 where
  pub id : ℕ
  pub sequence : ℕ
  pub user_id : ℕ
  pub side : Side
  pub status : Status
  pub price : ℕ
  pub original_amount : ℕ
  pub remaining_amount : ℕ

pub record Trade : Type 0 where
  pub id : ℕ
  pub maker_order_id : ℕ
  pub taker_order_id : ℕ
  pub buy_order_id : ℕ
  pub sell_order_id : ℕ
  pub taker_side : Side
  pub maker_fee_rate : ℕ
  pub maker_fee_amount : ℕ
  pub maker_fee_asset : Asset
  pub taker_fee_rate : ℕ
  pub taker_fee_amount : ℕ
  pub taker_fee_asset : Asset
  pub price : ℕ
  pub amount : ℕ

-- The reasons and the two types of events of backend/src/realtime/realtime.types.ts.
pub data EventReason : Type 0 where
  order_opened order_cancelled trade_executed order_created order_rejected : EventReason

pub data Event : Type 0 where
  market_changed : EventReason → (order_id : ℕ) → (trade_ids : List ℕ) → Event
  account_changed : EventReason → (order_id : ℕ) → (trade_ids : List ℕ) → (user_id : ℕ) → Event

-- A row of "order_matching_outbox": the order whose matching is due.
pub record MatchingRow : Type 0 where
  pub id : ℕ
  pub order_id : ℕ

-- The database. `next_order` and `next_trade` are the sequences of the two tables.
pub record Db : Type 0 where
  pub wallets : List Wallet
  pub orders : List Order
  pub trades : List Trade
  pub matching_outbox : List MatchingRow
  pub events : List Event
  pub next_order : ℕ
  pub next_trade : ℕ

-- Keys of the tables.
abbrev pub wallet_key : Wallet → ℕ
wallet_key w = w.user_id

abbrev pub order_key : Order → ℕ
order_key o = o.id
