-- ===== src/OrderBook/Ahead.antt =====
-- Each round of the search for makers leaves fewer candidates, so that the loop ends.
use exchange_matching.Base.{◌<◌, ◌≡◌, true, false, arith, List, Option, none, some}
use exchange_matching.Table.{sum_by-lt}
use exchange_matching.Database.{Order, order_key}
use exchange_matching.OrderBook.Candidates.{
  MakerCursor, cursor_at, is_candidate, find_next_candidate,
}
use exchange_matching.OrderBook.Priority.{behind_trans, behind_irrefl}
use exchange_matching.OrderBook.Query.{find_next_candidate-is_candidate, find_next_candidate-find}
use exchange_matching.Ledger.{Distinct}
use exchange_matching.Ledger.Waiting.{ahead}

-- A cursor that moves on leaves fewer candidates.
candidates_shrink :
    (taker : Order) (cursor : Option MakerCursor) (o x : Order)
    → is_candidate taker cursor o ≡ true
    → is_candidate taker (some (cursor_at o)) x ≡ true
    → is_candidate taker cursor x ≡ true
unfolding is_candidate
candidates_shrink taker none o x h k = ground arith
candidates_shrink taker (some c) o x h k = ground (arith, behind_trans taker.side o x c)

no_repeat : (taker : Order) (o : Order) → is_candidate taker (some (cursor_at o)) o ≡ false
unfolding is_candidate
no_repeat taker o = ground (arith, behind_irrefl taker.side o)

pub ahead-lt :
    (taker : Order) (cursor : Option MakerCursor) (os : List Order) (o : Order)
    → Distinct os
    → find_next_candidate taker cursor os ≡ some o
    → ahead taker (some (cursor_at o)) os < ahead taker cursor os
unfolding ahead
ahead-lt taker cursor os o d h =
    let t = find_next_candidate-is_candidate taker cursor os o h in
    sum_by-lt order_key _ _ o.id os o (λ x. ground (arith, candidates_shrink taker cursor o x t))
      (find_next_candidate-find taker cursor os o d h) (ground (arith, t, no_repeat taker o))
