-- ===== src/Settlement/Fees.antt =====
-- backend/src/matching/trade-settlement.service.ts, `buildFeeDetails`: the two fees of a trade.
use exchange_matching.Base.{ℕ, ◌≤◌, ◌≡◌, pos, ok, arith}
use exchange_matching.Decimal.{decimal_max}
use exchange_matching.Decimal.Laws.{cost, multiply_scaled-pos}
use exchange_matching.Database.{Side, buy, sell, Asset, btc, usd}
use exchange_matching.Settlement.Amounts.{
  maker_fee_rate, taker_fee_rate, build_fee_details, fee_details,
}
use exchange_matching.Settlement.Trades.{fee-le}

-- The fee of each user is due in what the trade brings in: USD for the seller, BTC for the buyer.
abbrev pub received : Side → (q x : ℕ) → ℕ
received buy q x = q
received sell q x = cost q x

abbrev pub fee_asset : Side → Asset
fee_asset buy = btc
fee_asset sell = usd

abbrev pub opposite : Side → Side
opposite buy = sell
opposite sell = buy

abbrev pub taker_fee : Side → (q x : ℕ) → ℕ
taker_fee s q x = cost (received s q x) taker_fee_rate

abbrev pub maker_fee : Side → (q x : ℕ) → ℕ
maker_fee s q x = cost (received (opposite s) q x) maker_fee_rate

-- For a trade whose amount and cost fit a column, `build_fee_details` charges the maker and
-- the taker each their own rate of what they receive, rounded down, in the asset that they
-- receive: BTC for the buyer, USD for the seller.
pub build_fee_details-eq :
    (s : Side) (q x : ℕ)
    → q ≤ decimal_max
    → cost q x ≤ decimal_max
    → build_fee_details s (pos q) (pos x)
      ≡ ok (
          fee_details
            (pos (maker_fee s q x))
            (fee_asset (opposite s))
            (pos (taker_fee s q x))
            (fee_asset s))
unfolding build_fee_details
build_fee_details-eq buy q x h k = ground (
  arith,
  multiply_scaled-pos q x,
  fee-le q taker_fee_rate,
  fee-le (cost q x) maker_fee_rate,
  multiply_scaled-pos q taker_fee_rate,
  multiply_scaled-pos (cost q x) maker_fee_rate,
)
build_fee_details-eq sell q x h k = ground (
  arith,
  multiply_scaled-pos q x,
  fee-le q maker_fee_rate,
  fee-le (cost q x) taker_fee_rate,
  multiply_scaled-pos q maker_fee_rate,
  multiply_scaled-pos (cost q x) taker_fee_rate,
)
