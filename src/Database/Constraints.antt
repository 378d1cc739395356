-- ===== src/Database/Constraints.antt =====
-- The constraints of backend/prisma/migrations that a write must meet.
use exchange_matching.Base.{
  ℕ, ◌==◌, ◌&&◌, Bool, ltb, leb, if◌then◌else◌, ℤ, pos, negsuc, Result, ok, err, check_violation,
  numeric_overflow,
}
use exchange_matching.Decimal.{decimal_max}
use exchange_matching.Database.Rows.{
  Order, Status, queued, opened, partially_filled, filled, cancelled, rejected, Trade,
}

-- Storing a value in a DECIMAL(28,8) column with a CHECK that it is not negative.
unfoldable pub to_column : ℤ → Result ℕ
to_column (pos n) = if leb n decimal_max then ok n else err numeric_overflow
to_column (negsuc n) = err check_violation

-- orders_status_remaining_amount_consistency
unfoldable pub status_consistent : Status → (remaining original : ℕ) → Bool
status_consistent queued remaining original = remaining == original
status_consistent opened remaining original = remaining == original
status_consistent partially_filled remaining original = ltb 0 remaining && ltb remaining original
status_consistent filled remaining original = remaining == 0
status_consistent cancelled remaining original = ltb 0 remaining && leb remaining original
status_consistent rejected remaining original = remaining == original

-- The CHECK constraints of the table "orders".
unfoldable pub order_check : Order → Bool
unfolding status_consistent
order_check o =
    ltb 0 o.price
    && ltb 0 o.original_amount
    && leb o.remaining_amount o.original_amount
    && status_consistent o.status o.remaining_amount o.original_amount

-- trades_price_positive and trades_amount_positive
unfoldable pub trade_check : Trade → Bool
trade_check t = ltb 0 t.price && ltb 0 t.amount
