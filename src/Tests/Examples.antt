-- ===== src/Tests/Examples.antt =====
-- Each theorem about the exchange at a concrete input.
use exchange_matching.Base.{◌≡◌, refl, arith, inl, some, none, true, ok, err, pos, order_not_found}
use exchange_matching.Table.{find, sum_by}
use exchange_matching.Database.{buy, cancelled, rejected, order_key, usd, btc}
use exchange_matching.OrderBook.Query.{IsBestMaker, find_next_candidate-best}
use exchange_matching.OrderBook.Rules.{Faces}
use exchange_matching.Wallets.{reserve_funds}
use exchange_matching.Wallets.Effects.{with_wallet}
use exchange_matching.Wallets.Reservations.{reserve_in, reserve_funds-eq}
use exchange_matching.Settlement.{fee_details, build_fee_details, buy_reservation_debit}
use exchange_matching.Settlement.Debit.{debit, buy_reservation_debit-eq}
use exchange_matching.Settlement.Fees.{build_fee_details-eq}
use exchange_matching.Ledger.Waiting.{ahead}
use exchange_matching.Matching.{process_order, reject_order}
use exchange_matching.Matching.Process.{Processed, process_order-Processed}
use exchange_matching.Matching.Reject.{reject_order-Withdrawn}
use exchange_matching.Orders.{create_order, cancel_order}
use exchange_matching.Orders.Release.{with_status}
use exchange_matching.Orders.Withdraw.{Withdrawn}
use exchange_matching.Orders.Cancel.{refusal, cancel_order-Withdrawn, cancel_order_refused}
use exchange_matching.Orders.Place.{new_order, placed}
use exchange_matching.Orders.Create.{Created, answer, create_order-answer, create_order-Created}
use exchange_matching.Tests.Market.{
  buyer_range, buyer, resting, incoming, market, alone, alone-Isolated, market-Valid, resting_row,
  incoming_row, buyer_row,
}

process_order-Processed_example : Processed incoming market (process_order alone 3 1 market)
unfolding ahead sum_by
process_order-Processed_example =
    process_order-Processed alone alone-Isolated incoming 3 market market-Valid incoming_row refl
      (ground arith)

-- The buyer has 500 USD left for an order of 1 BTC at 110 USD.
create_order-answer_example :
    create_order 1 buy (ok (pos 100000000)) (ok (pos 11000000000)) market
    ≡ answer 1 buy 100000000 11000000000 buyer market
create_order-answer_example =
    create_order-answer 1 buy 100000000 11000000000 buyer market market-Valid.sound buyer_row
      (omega arith) (omega arith) (omega arith) (omega arith)

create_order_run :
    create_order 1 buy (ok (pos 100000000)) (ok (pos 11000000000)) market
    ≡ ok (
      new_order 1 buy 100000000 11000000000 market,
      placed 1 buy 100000000 11000000000 buyer market,
    )
create_order_run =
    create_order-answer 1 buy 100000000 11000000000 buyer market market-Valid.sound buyer_row
      (omega arith) (omega arith) (omega arith) (omega arith)

create_order-Created_example :
    Created
      (new_order 1 buy 100000000 11000000000 market)
      market
      (placed 1 buy 100000000 11000000000 buyer market)
create_order-Created_example =
    create_order-Created 1 buy 100000000 11000000000 buyer market market-Valid buyer_row
      (omega arith) (omega arith) (omega arith) (omega arith)
      (new_order 1 buy 100000000 11000000000 market)
      (placed 1 buy 100000000 11000000000 buyer market) create_order_run

cancel_order-Withdrawn_example :
    Withdrawn resting cancelled (with_status resting cancelled) market (cancel_order 2 0 market)
cancel_order-Withdrawn_example = cancel_order-Withdrawn resting market market-Valid resting_row refl

refused_run : refusal 1 (find order_key 0 market.orders) ≡ some order_not_found
unfolding find
refused_run = refl

cancel_order_refused_example : cancel_order 1 0 market ≡ err order_not_found
cancel_order_refused_example = cancel_order_refused 1 0 market order_not_found refused_run

reject_order-Withdrawn_example : Withdrawn incoming rejected true market (reject_order 1 market)
reject_order-Withdrawn_example =
    reject_order-Withdrawn incoming market market-Valid incoming_row refl

buy_reservation_debit-eq_example :
    buy_reservation_debit (pos 200000000) (pos 11000000000) (pos 100000000)
    ≡ ok (pos (debit 200000000 11000000000 100000000))
buy_reservation_debit-eq_example =
    buy_reservation_debit-eq 200000000 11000000000 100000000 (omega arith) (omega arith)
      (omega arith)

build_fee_details-eq_example :
    build_fee_details buy (pos 100000000) (pos 10000000000)
    ≡ ok (fee_details (pos 50000000) usd (pos 300000) btc)
build_fee_details-eq_example =
    build_fee_details-eq buy 100000000 10000000000 (omega arith) (omega arith)

reserve_funds-eq_example :
    reserve_funds buyer buy (pos 100000000) (pos 11000000000) market
    ≡ ok (tt, with_wallet 1 (reserve_in buy 11000000000 buyer) market)
reserve_funds-eq_example =
    reserve_funds-eq buyer market buyer_row buyer_range buy 100000000 11000000000 (omega arith)
      (omega arith)

incoming-Faces : Faces incoming resting
incoming-Faces = record {
  opposed = λ e. cc;
  strangers = λ e. ground arith;
  rests = inl refl;
  accepted = omega arith;
}

find_next_candidate-best_example : IsBestMaker incoming none market.orders resting
find_next_candidate-best_example =
    find_next_candidate-best incoming none market.orders 0 resting market-Valid.sound.distinct
      resting_row incoming-Faces tt
