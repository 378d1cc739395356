-- ===== src/Matching/Settled.antt =====
-- backend/src/matching/matching.service.ts: an order that has left the queue does not come back to it,
-- whatever the matching of another order writes.
use exchange_matching.Base.{
  ℕ, ℤ, ◌≡◌, ◌≢◌, refl, sym, ◌∙◌, arith, Bool, true, false, not, Option, Option-cases, none, some,
  Result, Result-cases, ok, err, Error, ◌==◌, ==→eq, Bool-cases, inl, inr, pos, bad_request,
  exceeds_bounds,
}
use exchange_matching.Table.{find, replace, find-replace_self, find-replace_ne, find-key}
use exchange_matching.Database.{
  Db, Order, Wallet, Status, Action, ◌>>=◌, pure, lift, gets, modify, or_throw, order_key,
  wallet_key, Side, buy, sell, load_order, store_order, update_status, update_remaining, to_column,
}
use exchange_matching.Decimal.{assert_positive_order_cost, multiply_scaled, subtract_scaled}
use exchange_matching.Settlement.{
  apply_trade_balances, apply_buy_taker_balances, apply_sell_taker_balances, buy_reservation_debit,
  taker_fee_rate, maker_fee_rate,
}
use exchange_matching.Wallets.{BalanceUpdate, balance_constraints, apply_update}
use exchange_matching.Wallets.{update_balances, select_wallet, store_wallet}
use exchange_matching.Matching.{is_queued}

-- The order is there, and not queued.
abbrev pub has_left : Option Order → Bool
has_left none = false
has_left (some o) = not (is_queued o.status)

-- What a transaction commits leaves it so.
unfoldable pub Keeps : {A : Type 0} → ℕ → Action A → Type 0
Keeps {A} id m =
    (d : Db) (r : A × Db)
    → has_left (find order_key id d.orders) ≡ true
    → m d ≡ ok r
    → has_left (find order_key id r.1.orders) ≡ true

module _ {A B : Type 0} (id : ℕ) where
  pub bind-Keeps :
      (call : Action A) (next : A → Action B)
      → Keeps id call
      → ((a : A) → Keeps id (next a))
      → Keeps id (call >>= next)
  unfolding Keeps
  bind-Keeps call next h k d r left e = elim (Result-cases (call d)) [
    | inl (x, fails) ↦ ground (arith, e, fails)
    | inr (s, gives) ↦ k s.0 s.1 r (h d s left gives) (ground (arith, e, gives))
  ]

  pub lift-Keeps :
      (result : Result A) (next : A → Action B)
      → ((a : A) → Keeps id (next a))
      → Keeps id (lift result >>= next)
  unfolding Keeps
  lift-Keeps (ok a) next k d r left e = k a d r left e
  lift-Keeps (err x) next k d r left e = cc

  pub gets-Keeps :
      (f : Db → A) (next : A → Action B)
      → ((a : A) → Keeps id (next a))
      → Keeps id (gets f >>= next)
  unfolding Keeps
  gets-Keeps f next k d r left e = k (f d) d r left e

  pub or_throw-Keeps :
      (o : Option A) (x : Error) (next : A → Action B)
      → ((a : A) → Keeps id (next a))
      → Keeps id (or_throw o x >>= next)
  unfolding Keeps
  or_throw-Keeps none x next k d r left e = cc
  or_throw-Keeps (some a) x next k d r left e = k a d r left e

pub pure-Keeps : {A : Type 0} (id : ℕ) (a : A) → Keeps id (pure a)
unfolding Keeps
pure-Keeps id a d r left e = ground (arith, e, left)

-- A write that leaves the orders alone.
pub modify-Keeps :
    (id : ℕ) (f : Db → Db) → ((d : Db) → (f d).orders ≡ d.orders) → Keeps id (modify f)
unfolding Keeps
modify-Keeps id f same d r left e = ground (arith, e, left, same d)

-- A write of a row that is not queued.
store_order-Keeps :
    (id k : ℕ) (o : Order) → o.id ≡ k → is_queued o.status ≡ false → Keeps id (store_order k o)
unfolding Keeps store_order
store_order-Keeps id k o own out d r left e = elim (Bool-cases (id == k)) [
  | inl same ↦ elim (Option-cases (find order_key id d.orders)) [
    | inl missing ↦ ground (arith, left, missing)
    | inr (x, row) ↦
        let key = ==→eq id k same in
        let now = find-replace_self order_key id o d.orders x row (own ∙ sym key) in
        ground (arith, e, out, now, key)
  ]
  | inr differs ↦
      let ne : id ≢ k = ground arith in
      let other = find-replace_ne order_key id k o d.orders ne own in ground (arith, e, left, other)
]

pub update_remaining-Keeps :
    (id k : ℕ) (remaining : ℤ) (status : Status)
    → is_queued status ≡ false
    → Keeps id (update_remaining k remaining status)
unfolding Keeps update_remaining load_order
update_remaining-Keeps id k remaining status out d r left e =
    elim (Option-cases (find order_key k d.orders)) [
      | inl missing ↦ ground (arith, e, missing)
      | inr (x, row) ↦ elim (Result-cases (to_column remaining)) [
        | inl (y, over) ↦ ground (arith, e, row, over)
        | inr (column, fits) ↦
            let o : Order = record x { remaining_amount = column; status = status } in
            bind-Keeps id (store_order k o) (λ u. pure o)
              (store_order-Keeps id k o (find-key order_key k d.orders x row) out)
              (λ u. pure-Keeps id o) d r left (ground (arith, e, row, fits))
      ]
    ]

pub update_status-Keeps :
    (id k : ℕ) (status : Status) → is_queued status ≡ false → Keeps id (update_status k status)
unfolding Keeps update_status load_order
update_status-Keeps id k status out d r left e = elim (Option-cases (find order_key k d.orders)) [
  | inl missing ↦ ground (arith, e, missing)
  | inr (x, row) ↦
      let o : Order = record x { status = status } in
      bind-Keeps id (store_order k o) (λ u. pure o)
        (store_order-Keeps id k o (find-key order_key k d.orders x row) out) (λ u. pure-Keeps id o)
        d r left (ground (arith, e, row))
]

pub store_wallet-Keeps : (id user : ℕ) (w : Wallet) → Keeps id (store_wallet user w)
unfolding store_wallet
store_wallet-Keeps id user w =
    modify-Keeps id (λ d. record d { wallets = replace wallet_key user w d.wallets }) (λ d. refl)

pub update_balances-Keeps :
    (id user : ℕ) (update : BalanceUpdate) → Keeps id (update_balances user update)
unfolding update_balances
update_balances-Keeps id user update = lift-Keeps id (balance_constraints update) _ (λ constraints.
    gets-Keeps id (λ d. select_wallet user constraints d.wallets) _
      (λ selected.
        or_throw-Keeps id selected (bad_request exceeds_bounds) _
          (λ w. lift-Keeps id (apply_update update w) _ (λ w'. store_wallet-Keeps id user w'))))

two_updates-Keeps :
    (id u v : ℕ) (first second : BalanceUpdate)
    → Keeps id (update_balances u first >>= λ done. update_balances v second)
two_updates-Keeps id u v first second =
    bind-Keeps id (update_balances u first) (λ done. update_balances v second)
      (update_balances-Keeps id u first) (λ done. update_balances-Keeps id v second)

apply_buy_taker_balances-Keeps :
    (id : ℕ) (taker : Order) (remaining : ℤ) (v w : Wallet) (amount price : ℤ)
    → Keeps id (apply_buy_taker_balances taker remaining v w amount price)
unfolding apply_buy_taker_balances
apply_buy_taker_balances-Keeps id taker remaining v w amount price =
    lift-Keeps id (buy_reservation_debit remaining (pos taker.price) amount) _ (λ reserved_cost.
      lift-Keeps id (multiply_scaled amount price) _ (λ executed_cost.
        lift-Keeps id (subtract_scaled reserved_cost executed_cost) _ (λ improvement.
          lift-Keeps id (multiply_scaled amount (pos taker_fee_rate)) _ (λ taker_fee.
            lift-Keeps id (multiply_scaled executed_cost (pos maker_fee_rate)) _ (λ maker_fee.
              lift-Keeps id (subtract_scaled amount taker_fee) _ (λ received_btc.
                lift-Keeps id (subtract_scaled executed_cost maker_fee) _
                  (λ received_usd. two_updates-Keeps id v.user_id w.user_id _ _)))))))

apply_sell_taker_balances-Keeps :
    (id : ℕ) (maker : Order) (v w : Wallet) (amount price : ℤ)
    → Keeps id (apply_sell_taker_balances maker v w amount price)
unfolding apply_sell_taker_balances
apply_sell_taker_balances-Keeps id maker v w amount price =
    lift-Keeps id (multiply_scaled amount price) _ (λ executed_cost.
      lift-Keeps id (multiply_scaled executed_cost (pos taker_fee_rate)) _ (λ taker_fee.
        lift-Keeps id (multiply_scaled amount (pos maker_fee_rate)) _ (λ maker_fee.
          lift-Keeps id (subtract_scaled executed_cost taker_fee) _ (λ received_usd.
            lift-Keeps id (subtract_scaled amount maker_fee) _ (λ received_btc.
              lift-Keeps id
                (buy_reservation_debit (pos maker.remaining_amount) (pos maker.price) amount) _
                (λ reserved_cost.
                  lift-Keeps id (subtract_scaled reserved_cost executed_cost) _
                    (λ refund. two_updates-Keeps id v.user_id w.user_id _ _)))))))

by_side-Keeps :
    {A : Type 0} (id : ℕ) (side : Side) (b s : Action A)
    → Keeps id b
    → Keeps id s
    → Keeps id (elim side [ buy ↦ b | sell ↦ s ])
by_side-Keeps id buy b s h k = h
by_side-Keeps id sell b s h k = k

pub apply_trade_balances-Keeps :
    (id : ℕ) (taker : Order) (remaining : ℤ) (maker : Order) (v w : Wallet) (amount price : ℤ)
    → Keeps id (apply_trade_balances taker remaining maker v w amount price)
unfolding apply_trade_balances
apply_trade_balances-Keeps id taker remaining maker v w amount price =
    lift-Keeps id (assert_positive_order_cost amount price) _ (λ cost.
      by_side-Keeps id taker.side _ _
        (apply_buy_taker_balances-Keeps id taker remaining v w amount price)
        (apply_sell_taker_balances-Keeps id maker v w amount price))
