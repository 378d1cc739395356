-- ===== src/Matching/Departed.antt =====
-- backend/src/matching/matching.service.ts, `processOrder`: an order that has left the queue is not queued
-- again by the processing of any order.
use exchange_matching.Base.{
  ℕ, ℤ, zero, suc, ◌≡◌, refl, arith, Bool, true, false, List, [], ◌∷◌, ◌++◌, Option-cases, some,
  Result-cases, Bool-cases, inl, inr, if◌then◌else◌, pos, leb_ℤ, ltb_ℤ, wallet_not_found,
  order_not_found,
}
use exchange_matching.Table.{find}
use exchange_matching.Database.{
  Db, Order, Trade, Event, opened, Action, ◌>>=◌, modify, order_key, wallet_key, load_order,
  update_status, update_remaining, append_events, insert_trade, to_column,
}
use exchange_matching.OrderBook.{
  Waits, Search, search_makers, find_and_lock_eligible_makers, consider, next_candidate, cursor_at,
}
use exchange_matching.Decimal.{multiply_scaled, subtract_scaled, add_scaled}
use exchange_matching.Settlement.{apply_trade_balances, build_fee_details, FeeDetails}
use exchange_matching.Matching.{
  is_queued, is_zero, taker_status, maker_status, open_order, finish_order, settle_makers,
  process_order, match_makers, match_maker, trade_with, lock_and_load_wallets, create_trade,
  Progress, start,
}
use exchange_matching.Matching.Settled.{
  has_left, Keeps, bind-Keeps, lift-Keeps, gets-Keeps, or_throw-Keeps, pure-Keeps, modify-Keeps,
  update_remaining-Keeps, update_status-Keeps, apply_trade_balances-Keeps,
}

-- Waits for locks that bring no order back to the queue.
pub record WaitsKeep (id : ℕ) (waits : Waits) : Type 0 where
  pub order_wait :
      (locked : List ℕ) (k : ℕ) (d : Db)
      → has_left (find order_key id d.orders) ≡ true
      → has_left (find order_key id (waits.for_order locked k d).orders) ≡ true
  pub wallets_wait :
      (locked : List ℕ) (user : ℕ) (d : Db)
      → has_left (find order_key id d.orders) ≡ true
      → has_left (find order_key id (waits.for_wallets locked user d).orders) ≡ true

taker_status-out : (matched remaining : ℤ) → is_queued (taker_status matched remaining) ≡ false
taker_status-out matched remaining = ground arith

maker_status-out : (remaining : ℤ) → is_queued (maker_status remaining) ≡ false
maker_status-out remaining = ground arith

pub if-Keeps :
    {A : Type 0} (id : ℕ) (b : Bool) (m n : Action A)
    → Keeps id m
    → Keeps id n
    → Keeps id (if b then m else n)
if-Keeps id true m n h k = h
if-Keeps id false m n h k = k

pub append_events-Keeps : (id : ℕ) (events : List Event) → Keeps id (append_events events)
unfolding append_events
append_events-Keeps id events =
    modify-Keeps id (λ d. record d { events = d.events ++ events }) (λ d. refl)

insert_trade-Keeps : (id : ℕ) (make : ℕ → Trade) → Keeps id (insert_trade make)
unfolding Keeps insert_trade
insert_trade-Keeps id make d r left e = ground (arith, e, left)

open_order-Keeps : (id : ℕ) (taker : Order) → Keeps id (open_order taker)
unfolding open_order
open_order-Keeps id taker =
    bind-Keeps id (update_status taker.id opened) _ (update_status-Keeps id taker.id opened refl)
      (λ o.
        bind-Keeps id (append_events _) _ (append_events-Keeps id _) (λ done. pure-Keeps id true))

finish_order-Keeps : (id : ℕ) (taker : Order) (p : Progress) → Keeps id (finish_order taker p)
unfolding finish_order
finish_order-Keeps id taker p =
    bind-Keeps id (update_remaining taker.id p.remaining (taker_status p.matched p.remaining)) _
      (update_remaining-Keeps id taker.id p.remaining (taker_status p.matched p.remaining)
        (taker_status-out p.matched p.remaining))
      (λ o.
        bind-Keeps id (append_events _) _ (append_events-Keeps id _) (λ done. pure-Keeps id true))

create_trade-Keeps :
    (id : ℕ) (taker maker : Order) (fees : FeeDetails) (amount price : ℤ)
    → Keeps id (create_trade taker maker fees amount price)
unfolding create_trade
create_trade-Keeps id taker maker fees amount price =
    lift-Keeps id (to_column fees.maker_amount) _ (λ maker_fee.
      lift-Keeps id (to_column fees.taker_amount) _ (λ taker_fee.
        lift-Keeps id (to_column price) _ (λ price_column.
          lift-Keeps id (to_column amount) _ (λ amount_column. insert_trade-Keeps id _))))

module _ (id : ℕ) (waits : Waits) (quiet : WaitsKeep id waits) (locked : List ℕ) where
  waited-Keeps : (user : ℕ) → Keeps id (modify (waits.for_wallets locked user))
  unfolding Keeps
  waited-Keeps user d r left e = ground (arith, e, quiet.wallets_wait locked user d left)

  lock_and_load_wallets-Keeps :
      (taker maker : ℕ) → Keeps id (lock_and_load_wallets waits locked taker maker)
  unfolding lock_and_load_wallets
  lock_and_load_wallets-Keeps taker maker =
      bind-Keeps id (modify (waits.for_wallets locked maker)) _ (waited-Keeps maker) (λ done.
        gets-Keeps id (λ d. find wallet_key taker d.wallets) _
          (λ taker_row.
            gets-Keeps id (λ d. find wallet_key maker d.wallets) _
              (λ maker_row.
                or_throw-Keeps id taker_row wallet_not_found _ (λ v.
                  or_throw-Keeps id maker_row wallet_not_found _ (λ w. pure-Keeps id (v, w))))))

  module _ (taker : Order) where
    trade_with-Keeps :
        (maker : Order) (amount : ℤ) (p : Progress)
        → Keeps id (trade_with waits locked taker maker amount p)
    unfolding trade_with
    trade_with-Keeps maker amount p =
        bind-Keeps id (lock_and_load_wallets waits locked taker.user_id maker.user_id) _
          (lock_and_load_wallets-Keeps taker.user_id maker.user_id)
          (λ ws.
            bind-Keeps id
              (apply_trade_balances taker p.remaining maker ws.0 ws.1 amount (pos maker.price)) _
              (apply_trade_balances-Keeps id taker p.remaining maker ws.0 ws.1 amount
                (pos maker.price))
              (λ done.
                lift-Keeps id (build_fee_details taker.side amount (pos maker.price)) _ (λ fees.
                  lift-Keeps id (subtract_scaled (pos maker.remaining_amount) amount) _ (λ next.
                    bind-Keeps id (create_trade taker maker fees amount (pos maker.price)) _
                      (create_trade-Keeps id taker maker fees amount (pos maker.price))
                      (λ trade.
                        bind-Keeps id (update_remaining maker.id next (maker_status next)) _
                          (update_remaining-Keeps id maker.id next (maker_status next)
                            (maker_status-out next))
                          (λ row. lift-Keeps id (subtract_scaled p.remaining amount) _ (λ remaining.
                            lift-Keeps id (add_scaled p.matched amount) _
                              (λ matched. pure-Keeps id _))))))))

    match_maker-Keeps :
        (maker : Order) (p : Progress) → Keeps id (match_maker waits locked taker maker p)
    unfolding match_maker
    match_maker-Keeps maker p =
        let amount : ℤ =
          if ltb_ℤ p.remaining (pos maker.remaining_amount)
          then p.remaining
          else pos maker.remaining_amount in
        if-Keeps id (leb_ℤ (pos maker.remaining_amount) (pos 0)) _ _ (pure-Keeps id p) (
          lift-Keeps id (multiply_scaled amount (pos maker.price)) _ (λ cost.
            if-Keeps id (is_zero cost) _ _ (pure-Keeps id p) (trade_with-Keeps maker amount p)))

    match_makers-Keeps :
        (makers : List Order) (p : Progress) → Keeps id (match_makers waits locked taker makers p)
    unfolding match_makers Keeps
    match_makers-Keeps [] p d r left e = ground (arith, e, left)
    match_makers-Keeps (maker ∷ rest) p d r left e = elim (Bool-cases (leb_ℤ p.remaining (pos 0))) [
      | inl ended ↦ ground (arith, e, left, ended)
      | inr goes_on ↦
          bind-Keeps id (match_maker waits locked taker maker p)
            (λ p'. match_makers waits locked taker rest p') (match_maker-Keeps maker p)
            (λ p'. match_makers-Keeps rest p') d r left (ground (arith, e, goes_on))
    ]

module _ (id : ℕ) (waits : Waits) (quiet : WaitsKeep id waits) (taker : Order) where
  settle_makers-Keeps : (s : Search) → Keeps id (settle_makers waits taker s)
  unfolding settle_makers
  settle_makers-Keeps s = chosen s.makers
    where
      chosen :
          (makers : List Order)
          → Keeps id (elim makers [
            | [] ↦ open_order taker
            | maker ∷ rest ↦
                match_makers waits s.locked taker (maker ∷ rest) (start taker)
                >>= finish_order taker
          ])
      chosen [] = open_order-Keeps id taker
      chosen (maker ∷ rest) =
          bind-Keeps id (match_makers waits s.locked taker (maker ∷ rest) (start taker))
            (finish_order taker)
            (match_makers-Keeps id waits quiet s.locked taker (maker ∷ rest) (start taker))
            (λ p. finish_order-Keeps id taker p)

  search_makers-Keeps : (fuel : ℕ) (s : Search) → Keeps id (search_makers waits taker fuel s)
  unfolding search_makers Keeps
  search_makers-Keeps zero s d r left e = cc
  search_makers-Keeps (suc fuel) s d r left e =
      elim (Option-cases (next_candidate waits taker s d)) [
        | inl none_left ↦ ground (arith, e, left, none_left)
        | inr (candidate, more) ↦
            let d' = waits.for_order s.locked candidate.id d in
            elim (Result-cases
              (consider taker (find order_key candidate.id d'.orders) s.remaining s.makers)) [
                | inl (x, fails) ↦ ground (arith, e, more, fails)
                | inr (found, fine) ↦
                    search_makers-Keeps fuel
                      (record {
                        cursor = some (cursor_at candidate);
                        remaining = found.0;
                        makers = found.1;
                        locked = candidate.id ∷ s.locked;
                      })
                      d' r (quiet.order_wait s.locked candidate.id d left)
                      (ground (arith, e, more, fine))
              ]
      ]

pub process_order-Keeps :
    (id : ℕ) (waits : Waits) (fuel order_id : ℕ)
    → WaitsKeep id waits
    → Keeps id (process_order waits fuel order_id)
unfolding process_order load_order find_and_lock_eligible_makers
process_order-Keeps id waits fuel order_id quiet =
    gets-Keeps id (λ d. find order_key order_id d.orders) _
      (λ found. or_throw-Keeps id found order_not_found _ (λ taker.
        if-Keeps id (is_queued taker.status) _ _
          (bind-Keeps id (find_and_lock_eligible_makers waits taker fuel)
            (settle_makers waits taker) (search_makers-Keeps id waits quiet taker fuel _)
            (λ s. settle_makers-Keeps id waits quiet taker s))
          (pure-Keeps id false)))
