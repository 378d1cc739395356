-- ===== src/Settlement/Amounts.antt =====
-- backend/src/matching/trade-settlement.service.ts: the fees of a trade, and the part of a BUY
-- order's reservation that it uses up.
use exchange_matching.Base.{ℕ, ℤ, pos, Result, ok, ◌>>=◌}
use exchange_matching.Decimal.{multiply_scaled, subtract_scaled}
use exchange_matching.Database.{Side, buy, sell, Asset, btc, usd}

-- MAKER_FEE_RATE 0.005 and TAKER_FEE_RATE 0.003, in units.
abbrev pub maker_fee_rate : ℕ
maker_fee_rate = 500000

abbrev pub taker_fee_rate : ℕ
taker_fee_rate = 300000

pub record FeeDetails : Type 0 where
  pub maker_rate : ℕ
  pub maker_amount : ℤ
  pub maker_asset : Asset
  pub taker_rate : ℕ
  pub taker_amount : ℤ
  pub taker_asset : Asset

abbrev pub fee_details : (maker : ℤ) → Asset → (taker : ℤ) → Asset → FeeDetails
fee_details maker ma taker ta = record {
  maker_rate = maker_fee_rate;
  maker_amount = maker;
  maker_asset = ma;
  taker_rate = taker_fee_rate;
  taker_amount = taker;
  taker_asset = ta;
}

-- Each user pays in the asset that the trade brings in.
unfoldable pub build_fee_details : (taker_side : Side) → (amount price : ℤ) → Result FeeDetails
build_fee_details buy amount price = do
  executed_cost ← multiply_scaled amount price
  maker ← multiply_scaled executed_cost (pos maker_fee_rate)
  taker ← multiply_scaled amount (pos taker_fee_rate)
  ok (fee_details maker usd taker btc)
build_fee_details sell amount price = do
  executed_cost ← multiply_scaled amount price
  maker ← multiply_scaled amount (pos maker_fee_rate)
  taker ← multiply_scaled executed_cost (pos taker_fee_rate)
  ok (fee_details maker btc taker usd)

-- `buyReservationDebit`, by the two fields of the order that it reads.
unfoldable pub buy_reservation_debit : (remaining price trade_amount : ℤ) → Result ℤ
buy_reservation_debit remaining price trade_amount = do
  left ← subtract_scaled remaining trade_amount
  before ← multiply_scaled remaining price
  after ← multiply_scaled left price
  subtract_scaled before after
