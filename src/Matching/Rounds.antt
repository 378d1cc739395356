-- ===== src/Matching/Rounds.antt =====
-- The matching loop never throws, and keeps the invariant of the money, in every round.
use exchange_matching.Base.{
  ℕ, ◌+◌, ◌≤◌, ◌<◌, ◌≡◌, ◌≢◌, sym, ap, ◌∙◌, pos, ok, some, true, arith, List, ltb, if◌then◌else◌,
  Result,
}
use exchange_matching.Table.{find}
use exchange_matching.Decimal.{decimal_max}
use exchange_matching.Decimal.Laws.{cost, multiply_scaled-pos}
use exchange_matching.Database.{Db, Order, Wallet, Status, queued, order_key}
use exchange_matching.Orders.{is_active_status}
use exchange_matching.OrderBook.{Waits, is_eligible_maker, opposes, crosses, is_resting}
use exchange_matching.Ledger.{ValidBut, usd_total, btc_total}
use exchange_matching.Ledger.Holds.{with_remaining}
use exchange_matching.Ledger.Waiting.{Isolated}
use exchange_matching.Matching.Loop.{Progress, match_maker, trade_with, contains}
use exchange_matching.Matching.Meeting.{Meeting}
use exchange_matching.Matching.Trading.{progress}

-- The amount of a trade.
abbrev pub amount_of : (r m : ℕ) → ℕ
amount_of r m = if ltb r m then r else m

-- What the check of a reloaded maker says.
pub record Eligible (taker maker : Order) : Type 0 where
  pub strangers : maker.user_id ≢ taker.user_id
  pub resting : is_resting maker.status ≡ true
  pub left : 0 < maker.remaining_amount
  pub opposed : opposes taker.side maker.side ≡ true
  pub crossing : crosses taker.side taker.price maker.price ≡ true

pub is_eligible_maker-Eligible :
    (taker maker : Order) → is_eligible_maker taker maker ≡ true → Eligible taker maker
unfolding is_eligible_maker
is_eligible_maker-Eligible taker maker h = record {
  strangers = ground arith;
  resting = ground arith;
  left = ground arith;
  opposed = ground arith;
  crossing = ground arith;
}

pub resting-active : (s : Status) → is_resting s ≡ true → is_active_status s ≡ true
resting-active s h = ground arith

-- The state between two rounds: `r` left of the taker and `k` matched.
pub record Running (taker : Order) (locked : List ℕ) (r k : ℕ) (d : Db) : Type 0 where
  pub valid : ValidBut taker (with_remaining taker r) d
  pub taker_row : find order_key taker.id d.orders ≡ some taker
  pub taker_locked : contains taker.id locked ≡ true
  pub taker_queued : taker.status ≡ queued
  pub split : r + k ≡ taker.original_amount

-- A maker that the search has found and locked.
pub record Found (taker maker : Order) (locked : List ℕ) (d : Db) : Type 0 where
  pub row : find order_key maker.id d.orders ≡ some maker
  pub held : contains maker.id locked ≡ true
  pub eligible : is_eligible_maker taker maker ≡ true

-- A run of the loop that returns: what is left, what was matched, and the database behind it.
pub record Outcome (taker : Order) (locked : List ℕ) (d : Db) (result : Result (Progress × Db))
    : Type 0 where
  pub left : ℕ
  pub done : ℕ
  pub users : List ℕ
  pub trade_ids : List ℕ
  pub after : Db
  pub returns : result ≡ ok (progress left done users trade_ids, after)
  pub running : Running taker locked left done after
  pub usd_kept : usd_total after ≡ usd_total d
  pub btc_kept : btc_total after ≡ btc_total d

-- The two rows are not one, since their users differ.
pub ids-differ :
    (taker maker : Order) (d : Db)
    → find order_key taker.id d.orders ≡ some taker
    → find order_key maker.id d.orders ≡ some maker
    → maker.user_id ≢ taker.user_id
    → taker.id ≢ maker.id
ids-differ taker maker d f g n e =
    let same : some maker ≡ some taker =
      sym g ∙ ap (λ (k : ℕ). find order_key k d.orders) (sym e) ∙ f in
    n (ground (arith, same))

module _ (waits : Waits) (iso : Isolated waits) (locked : List ℕ) (taker maker : Order) where
  -- A maker is passed over exactly when the fragment costs nothing.
  pub match_maker-skip :
      (r k : ℕ) (us ts : List ℕ) (d : Db)
      → cost (amount_of r maker.remaining_amount) maker.price ≡ 0
      → match_maker waits locked taker maker (progress r k us ts) d ≡ ok (progress r k us ts, d)
  unfolding match_maker
  match_maker-skip r k us ts d h = ground (
    arith,
    multiply_scaled-pos r maker.price,
    multiply_scaled-pos maker.remaining_amount maker.price,
  )

  pub match_maker-trade :
      (r k : ℕ) (us ts : List ℕ) (d : Db)
      → 0 < maker.remaining_amount
      → 0 < cost (amount_of r maker.remaining_amount) maker.price
      → cost (amount_of r maker.remaining_amount) maker.price ≤ decimal_max
      → match_maker waits locked taker maker (progress r k us ts) d
        ≡ trade_with waits locked taker maker
            (pos (amount_of r maker.remaining_amount))
            (progress r k us ts)
            d
  unfolding match_maker
  match_maker-trade r k us ts d l h b = ground (
    arith,
    multiply_scaled-pos r maker.price,
    multiply_scaled-pos maker.remaining_amount maker.price,
  )

  module _ (r k : ℕ) (us ts : List ℕ) (d : Db) (run : Running taker locked r k d)
      (found : Found taker maker locked d) where
    -- The meeting of the two orders, behind the wait for the wallets.
    pub meeting :
        0 < cost (amount_of r maker.remaining_amount) maker.price
        → let d' = waits.for_wallets locked maker.user_id d in
          (tw : Wallet) × (mw : Wallet) × Meeting taker maker r
            (amount_of r maker.remaining_amount)
            tw
            mw
            d'
    meeting positive =
        let d' = waits.for_wallets locked maker.user_id d in
        let quiet = iso.wallets_wait locked maker.user_id _ _ d run.valid in
        let valid = quiet.keeps_valid taker (with_remaining taker r) run.valid in
        let taker_row = quiet.keeps_rows taker.id taker run.taker_locked run.taker_row in
        let maker_row = quiet.keeps_rows maker.id maker found.held found.row in
        let tw = valid.sound.owned taker.id taker taker_row in
        let mw = valid.sound.owned maker.id maker maker_row in
        let e = is_eligible_maker-Eligible taker maker found.eligible in
        (
          tw.0,
          mw.0,
          record {
            valid = valid;
            taker_row = taker_row;
            maker_row = maker_row;
            taker_wallet = tw.1;
            maker_wallet = mw.1;
            taker_active = ground (arith, run.taker_queued);
            maker_active = resting-active maker.status e.resting;
            opposed = e.opposed;
            crossing = e.crossing;
            strangers = e.strangers;
            remaining_le = omega (arith, run.split);
            within_taker = ground arith;
            within_maker = ground arith;
            positive = positive;
          },
        )
