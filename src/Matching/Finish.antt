-- ===== src/Matching/Finish.antt =====
-- The last writes of `processOrder`: the row of the taker, and the events.
use exchange_matching.Base.{ℕ, ◌+◌, ◌≡◌, refl, pos, ok, true, arith, List, [], ◌∷◌, ◌++◌, some, map}
use exchange_matching.Table.{find, replace, sum_by-replace}
use exchange_matching.Database.{
  Db, Order, Event, queued, opened, order_key, order_check, append_events, market_changed,
  account_changed,
}
use exchange_matching.Database.Laws.{with_order, update_status-eq, update_remaining-eq}
use exchange_matching.Ledger.{ValidBut, Valid, hold_usd, hold_btc}
use exchange_matching.Ledger.Holds.{with_remaining}
use exchange_matching.Ledger.Moves.{Sound-replace_order}
use exchange_matching.Matching.{taker_status, reason_of, open_order, finish_order}
use exchange_matching.Matching.Rounds.{Running}
use exchange_matching.Matching.Trading.{progress}

-- The row of an order that the invariant accounts for as `t'` is written as `t''`, which holds as much.
pub ValidBut-close :
    (t t' t'' : Order) (d : Db) (es : List Event)
    → ValidBut t t' d
    → find order_key t.id d.orders ≡ some t
    → t''.id ≡ t.id
    → t''.user_id ≡ t.user_id
    → t''.original_amount ≡ t.original_amount
    → t''.price ≡ t.price
    → order_check t'' ≡ true
    → ((u : ℕ) → hold_usd u t'' ≡ hold_usd u t')
    → ((u : ℕ) → hold_btc u t'' ≡ hold_btc u t')
    → Valid (record d { orders = replace order_key t.id t'' d.orders; events = es })
ValidBut-close t t' t'' d es v f id user amount price c usd btc = record {
  sound =
      Sound-replace_order d.wallets d.orders d.next_order t.id t t'' v.sound f id user c amount
        price;
  usd_reserved = λ u w g. omega (
    arith,
    v.usd_backed u w g,
    usd u,
    sum_by-replace order_key (hold_usd u) t.id t'' d.orders t f,
  );
  btc_reserved = λ u w g. omega (
    arith,
    v.btc_backed u w g,
    btc u,
    sum_by-replace order_key (hold_btc u) t.id t'' d.orders t f,
  );
}

-- The final row of the taker.
abbrev pub taker_after : Order → (r k : ℕ) → Order
taker_after o r k = record o { remaining_amount = r; status = taker_status (pos k) (pos r) }

module _ (o : Order) (r k : ℕ) (q : o.status ≡ queued) where
  hold_usd-taker_after : (u : ℕ) → hold_usd u (taker_after o r k) ≡ hold_usd u (with_remaining o r)
  unfolding hold_usd
  hold_usd-taker_after u = ground (arith, q)

  hold_btc-taker_after : (u : ℕ) → hold_btc u (taker_after o r k) ≡ hold_btc u (with_remaining o r)
  unfolding hold_btc
  hold_btc-taker_after u = ground (arith, q)

  order_check-taker_after :
      r + k ≡ o.original_amount → order_check o ≡ true → order_check (taker_after o r k) ≡ true
  unfolding order_check
  order_check-taker_after e c = ground (arith, q)

-- The database after the loop, with the taker's row and the events.
abbrev pub finished : Order → (r k : ℕ) (us ts : List ℕ) → Db → Db
finished taker r k us ts d = record (with_order taker.id (taker_after taker r k) d) {
  events =
      d.events
      ++ market_changed (reason_of (pos k)) taker.id ts
        ∷ map (account_changed (reason_of (pos k)) taker.id ts) us;
}

module _ (taker : Order) (locked : List ℕ) (r k : ℕ) (us ts : List ℕ) (d : Db)
    (run : Running taker locked r k d) where
  checked : order_check (taker_after taker r k) ≡ true
  checked =
      order_check-taker_after taker r k run.taker_queued run.split
        (run.valid.sound.rows_checked taker.id taker run.taker_row)

  pub finish_order-eq :
      finish_order taker (progress r k us ts) d ≡ ok (true, finished taker r k us ts d)
  unfolding finish_order append_events
  finish_order-eq = ground (
    arith,
    update_remaining-eq taker.id taker d run.taker_row r (taker_status (pos k) (pos r))
        (omega (arith, run.split, (run.valid.sound.rows_fit taker.id taker run.taker_row).0))
        checked,
  )

  pub finished-Valid : Valid (finished taker r k us ts d)
  finished-Valid =
      ValidBut-close taker (with_remaining taker r) (taker_after taker r k) d _ run.valid
        run.taker_row refl refl refl refl checked (hold_usd-taker_after taker r k run.taker_queued)
        (hold_btc-taker_after taker r k run.taker_queued)

-- With no makers the code takes another way, which leaves what the loop over none would leave.
pub open_order-eq :
    (taker : Order) (locked : List ℕ) (d : Db)
    → Running taker locked taker.remaining_amount 0 d
    → open_order taker d
      ≡ ok (true, finished taker taker.remaining_amount 0 (taker.user_id ∷ []) [] d)
unfolding open_order append_events
open_order-eq taker locked d run = ground (
  arith,
  update_status-eq taker.id taker d run.taker_row opened
      (checked taker locked taker.remaining_amount 0 (taker.user_id ∷ []) [] d run),
)
