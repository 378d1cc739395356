-- ===== src/Matching/Process.antt =====
-- `processOrder`, whole: from every valid database it commits, and leaves a valid one.
use exchange_matching.Base.{
  ℕ, ◌+◌, ◌<◌, ◌≡◌, refl, ◌∙◌, ok, true, arith, List, [], ◌∷◌, none, some, Result, Bool,
}
use exchange_matching.Table.{find, find-replace_self}
use exchange_matching.Database.{Db, Order, queued, order_key, load_order}
use exchange_matching.Database.Laws.{>>=-eq}
use exchange_matching.OrderBook.{Waits, Search, find_and_lock_eligible_makers}
use exchange_matching.OrderBook.Complete.{find_and_lock-Outcome}
use exchange_matching.Ledger.{Valid, usd_total, btc_total}
use exchange_matching.Ledger.Waiting.{Isolated, ahead}
use exchange_matching.Matching.Loop.{match_makers}
use exchange_matching.Matching.{start, settle_makers, process_order, finish_order}
use exchange_matching.Matching.Rounds.{Running}
use exchange_matching.Matching.Run.{Makers, match_makers-Outcome}
use exchange_matching.Matching.Trading.{progress}
use exchange_matching.Matching.Finish.{
  taker_after, finished, finish_order-eq, finished-Valid, open_order-eq,
}

-- A transaction that processed the order: `left` of the taker is left, `done` of it was matched.
pub record Processed (taker : Order) (d : Db) (result : Result (Bool × Db)) : Type 0 where
  pub left : ℕ
  pub done : ℕ
  pub after : Db
  pub returns : result ≡ ok (true, after)
  pub valid : Valid after
  pub taker_row : find order_key taker.id after.orders ≡ some (taker_after taker left done)
  pub split : left + done ≡ taker.original_amount
  pub usd_kept : usd_total after ≡ usd_total d
  pub btc_kept : btc_total after ≡ btc_total d

module _ (taker : Order) (locked : List ℕ) (r k : ℕ) (us ts : List ℕ) (d d₀ : Db)
    (run : Running taker locked r k d) (result : Result (Bool × Db)) where
  finished-Processed :
      result ≡ ok (true, finished taker r k us ts d)
      → usd_total d ≡ usd_total d₀
      → btc_total d ≡ btc_total d₀
      → Processed taker d₀ result
  unfolding usd_total btc_total
  finished-Processed e usd btc = record {
    left = r;
    done = k;
    after = finished taker r k us ts d;
    returns = e;
    valid = finished-Valid taker locked r k us ts d run;
    taker_row =
        find-replace_self order_key taker.id (taker_after taker r k) d.orders taker run.taker_row
          refl;
    split = run.split;
    usd_kept = usd;
    btc_kept = btc;
  }

module _ (waits : Waits) (iso : Isolated waits) (taker : Order) where
  settle_makers-Processed :
      (makers : List Order) (s : Search) (d d₀ : Db)
      → s.makers ≡ makers
      → Running taker s.locked taker.remaining_amount 0 d
      → Makers taker s.locked d makers
      → usd_total d ≡ usd_total d₀
      → btc_total d ≡ btc_total d₀
      → Processed taker d₀ (settle_makers waits taker s d)
  unfolding settle_makers
  settle_makers-Processed [] s d d₀ e run ms usd btc =
      finished-Processed taker s.locked taker.remaining_amount 0 (taker.user_id ∷ []) [] d d₀ run _
        (rw (e, settle_makers) (open_order-eq taker s.locked d run)) usd btc
  settle_makers-Processed (o ∷ os) s d d₀ e run ms usd btc =
      let loop =
        match_makers-Outcome waits iso s.locked taker (o ∷ os) taker.remaining_amount 0
          (taker.user_id ∷ []) [] d run ms in
      finished-Processed taker s.locked loop.left loop.done loop.users loop.trade_ids loop.after d₀
        loop.running _
        (rw (e, settle_makers)
          (>>=-eq (match_makers waits s.locked taker (o ∷ os) (start taker)) (finish_order taker) d
              (progress loop.left loop.done loop.users loop.trade_ids) loop.after loop.returns
            ∙ finish_order-eq taker s.locked loop.left loop.done loop.users loop.trade_ids
                loop.after loop.running))
        (loop.usd_kept ∙ usd) (loop.btc_kept ∙ btc)

  -- From a valid database, for a queued order whose row it holds, with waits that are
  -- isolated - each keeps the invariant, the totals, the locked rows and the places of
  -- orders, and brings no order into the book - and more fuel than candidates in the book,
  -- `process_order` returns true and a valid database. The row of the order is there with
  -- what is left and the status of what was matched, which together are the original amount,
  -- and the totals of USD and BTC with fees are as before.
  pub process_order-Processed :
      (fuel : ℕ) (d : Db)
      → Valid d
      → find order_key taker.id d.orders ≡ some taker
      → taker.status ≡ queued
      → ahead taker none d.orders < fuel
      → Processed taker d (process_order waits fuel taker.id d)
  unfolding process_order load_order
  process_order-Processed fuel d v row q h =
      let search = find_and_lock-Outcome waits iso taker fuel d v row q h in
      let settle =
        settle_makers-Processed search.found.makers search.found search.after d refl
          search.state.running search.state.makers search.usd_kept search.btc_kept in
      record {
        left = settle.left;
        done = settle.done;
        after = settle.after;
        returns = ground (
          arith,
          row,
          q,
          >>=-eq (find_and_lock_eligible_makers waits taker fuel) (settle_makers waits taker) d
              search.found search.after search.returns,
          settle.returns,
        );
        valid = settle.valid;
        taker_row = settle.taker_row;
        split = settle.split;
        usd_kept = settle.usd_kept;
        btc_kept = settle.btc_kept;
      }
