-- ===== src/Traffic/Departures.antt =====
-- backend/src/orders/orders.service.ts and `rejectOrder` of backend/src/matching/matching.service.ts: no
-- request of a user, and no rejection, queues an order again that has left the queue.
use exchange_matching.Base.{
  ℕ, ℤ, suc, pos, refl, arith, Bool, true, false, List, [], ◌∷◌, ◌++◌, ◌==◌, Option, Option-cases,
  none, some, Result, inl, inr, if◌then◌else◌, order_not_found, wallet_not_found, bad_request,
  cannot_be_cancelled, check_violation, Error,
}
use exchange_matching.Table.{find}
use exchange_matching.Database.{
  Order, Wallet, Side, queued, cancelled, rejected, Void, order_key, wallet_key, order_check,
  to_column, account_changed, market_changed, order_created, order_cancelled, order_rejected, ◌>>=◌,
  ◌>>◌, pure, throw, lift, modify, throw_unless, load_order, update_status, insert_order,
  append_order, append_events,
}
use exchange_matching.Decimal.{assert_positive_order_cost}
use exchange_matching.Wallets.{
  BalanceUpdate, BalanceField, Bound, find_by_user_id, select_wallet, store_wallet, apply_update,
  balance_constraints, reserve_update, release_update, update_many, reserve_amount, reserve_funds,
  release_amount, release_funds, required_amount, asset_of,
}
use exchange_matching.Orders.{
  place_order, create_order, load_order_of, cancel_order, is_active_status,
}
use exchange_matching.Matching.{is_queued, reject_order}
use exchange_matching.Matching.Settled.{
  Keeps, bind-Keeps, lift-Keeps, gets-Keeps, or_throw-Keeps, pure-Keeps, modify-Keeps,
  update_status-Keeps, update_balances-Keeps, store_wallet-Keeps,
}
use exchange_matching.Matching.Departed.{if-Keeps, append_events-Keeps}
use exchange_matching.Traffic.Steps.{find-append_old}

throw_unless-Keeps : (id : ℕ) (b : Bool) (x : Error) → Keeps id (throw_unless b x)
unfolding Keeps
throw_unless-Keeps id true x d r left e = ground (arith, e, left)
throw_unless-Keeps id false x d r left e = cc

throw-Keeps : (A : Type 0) (id : ℕ) (x : Error) → Keeps id (throw {A = A} x)
unfolding Keeps
throw-Keeps A id x d r left e = cc

-- A row that is added does not take the place of another.
add_order-Keeps :
    (id n : ℕ) (o : Order)
    → Keeps id (modify (λ d. record d { orders = d.orders ++ o ∷ []; next_order = n }))
unfolding Keeps
add_order-Keeps id n o d r left e = elim (Option-cases (find order_key id d.orders)) [
  | inl missing ↦ ground (arith, left, missing)
  | inr (x, row) ↦ ground (arith, e, left, row, find-append_old id o x d.orders row)
]

insert_order-Keeps :
    (id user_id : ℕ) (side : Side) (amount price : ℤ)
    → Keeps id (insert_order user_id side amount price)
unfolding insert_order
insert_order-Keeps id user_id side amount price =
    gets-Keeps id (λ d. d.next_order) _
      (λ n. lift-Keeps id (to_column amount) _ (λ amount_column.
        lift-Keeps id (to_column price) _ (λ price_column.
          let o : Order = record {
            id = n;
            sequence = n;
            user_id = user_id;
            side = side;
            status = queued;
            price = price_column;
            original_amount = amount_column;
            remaining_amount = amount_column;
          } in
          bind-Keeps id (throw_unless (order_check o) check_violation) _
            (throw_unless-Keeps id (order_check o) check_violation)
            (λ done.
              bind-Keeps id
                (modify (λ d. record d { orders = d.orders ++ o ∷ []; next_order = suc n })) _
                (add_order-Keeps id (suc n) o) (λ added. pure-Keeps id o)))))

update_many-Keeps :
    (id user_id : ℕ) (constraints : List (BalanceField × Bound)) (update : BalanceUpdate)
    → Keeps id (update_many user_id constraints update)
unfolding update_many
update_many-Keeps id user_id constraints update =
    gets-Keeps id (λ d. select_wallet user_id constraints d.wallets) _ chosen
  where
    chosen :
        (selected : Option Wallet)
        → Keeps {A = ℕ} id (elim selected [
          | none ↦ pure 0
          | some w ↦ lift (apply_update update w) >>= λ w'. store_wallet user_id w' >> pure 1
        ])
    chosen none = pure-Keeps id 0
    chosen (some w) = lift-Keeps id (apply_update update w) _ (λ w'.
        bind-Keeps id (store_wallet user_id w') _ (store_wallet-Keeps id user_id w')
          (λ done. pure-Keeps id 1))

reserve_funds-Keeps :
    (id : ℕ) (w : Wallet) (side : Side) (amount price : ℤ)
    → Keeps id (reserve_funds w side amount price)
unfolding reserve_funds reserve_amount
reserve_funds-Keeps id w side amount price =
    lift-Keeps id (required_amount side amount price) _ (λ required.
      bind-Keeps id (reserve_amount w.user_id (asset_of side) required) _
        (lift-Keeps id (balance_constraints (reserve_update (asset_of side) required)) _
          (λ constraints.
            update_many-Keeps id w.user_id constraints (reserve_update (asset_of side) required)))
        (λ count. if-Keeps id (count == 0) _ _ (throw-Keeps Void id _) (pure-Keeps id tt)))

release_funds-Keeps : (id : ℕ) (o : Order) → Keeps id (release_funds o)
unfolding release_funds release_amount
release_funds-Keeps id o =
    lift-Keeps id (required_amount o.side (pos o.remaining_amount) (pos o.price)) _
      (λ released. update_balances-Keeps id o.user_id (release_update (asset_of o.side) released))

pub create_order-Keeps :
    (id user_id : ℕ) (side : Side) (amount price : Result ℤ)
    → Keeps id (create_order user_id side amount price)
unfolding create_order place_order find_by_user_id append_order
create_order-Keeps id user_id side amount_input price_input =
    lift-Keeps id amount_input _ (λ amount. lift-Keeps id price_input _ (λ price.
      lift-Keeps id (assert_positive_order_cost amount price) _ (λ cost.
        gets-Keeps id (λ d. find wallet_key user_id d.wallets) _
          (λ found. or_throw-Keeps id found wallet_not_found _ (λ w.
            bind-Keeps id (reserve_funds w side amount price) _
              (reserve_funds-Keeps id w side amount price)
              (λ held.
                bind-Keeps id (insert_order user_id side amount price) _
                  (insert_order-Keeps id user_id side amount price)
                  (λ order.
                    bind-Keeps id (append_order order.id) _ (modify-Keeps id _ (λ d. refl))
                      (λ queued_row.
                        bind-Keeps id (append_events _) _
                          (append_events-Keeps id
                            (account_changed order_created order.id [] user_id ∷ []))
                          (λ done. pure-Keeps id order)))))))))

load_order_of-Keeps : (id user_id order_id : ℕ) → Keeps id (load_order_of user_id order_id)
unfolding load_order_of load_order
load_order_of-Keeps id user_id order_id =
    gets-Keeps id (λ d. find order_key order_id d.orders) _ found
  where
    found :
        (o : Option Order)
        → Keeps {A = Option Order} id (elim o [
          | none ↦ pure none
          | some order ↦ if order.user_id == user_id then pure (some order) else pure none
        ])
    found none = pure-Keeps id none
    found (some o) =
        if-Keeps id (o.user_id == user_id) _ _ (pure-Keeps id (some o)) (pure-Keeps id none)

pub cancel_order-Keeps : (id user_id order_id : ℕ) → Keeps id (cancel_order user_id order_id)
unfolding cancel_order find_by_user_id
cancel_order-Keeps id user_id order_id =
    bind-Keeps id (load_order_of user_id order_id) _ (load_order_of-Keeps id user_id order_id)
      (λ found. or_throw-Keeps id found order_not_found _ (λ order.
        bind-Keeps id
          (throw_unless (is_active_status order.status) (bad_request cannot_be_cancelled)) _
          (throw_unless-Keeps id _ _)
          (λ active.
            gets-Keeps id (λ d. find wallet_key user_id d.wallets) _
              (λ wallet_found. or_throw-Keeps id wallet_found wallet_not_found _ (λ w.
                bind-Keeps id (update_status order_id cancelled) _
                  (update_status-Keeps id order_id cancelled refl)
                  (λ row.
                    bind-Keeps id (release_funds order) _ (release_funds-Keeps id order)
                      (λ released.
                        bind-Keeps id (append_events _) _
                          (append_events-Keeps id (
                            market_changed order_cancelled order_id []
                            ∷ account_changed order_cancelled order_id [] user_id
                            ∷ []))
                          (λ done. pure-Keeps id row))))))))

pub reject_order-Keeps : (id order_id : ℕ) → Keeps id (reject_order order_id)
unfolding reject_order load_order
reject_order-Keeps id order_id = gets-Keeps id (λ d. find order_key order_id d.orders) _ found
  where
    found :
        (o : Option Order)
        → Keeps id (elim o [
          | none ↦ pure false
          | some order ↦
              if is_queued order.status
              then (update_status order.id rejected
                  >> release_funds order
                  >> append_events (account_changed order_rejected order.id [] order.user_id ∷ [])
                  >> pure true)
              else pure false
        ])
    found none = pure-Keeps id false
    found (some o) =
        if-Keeps id (is_queued o.status) _ _
          (bind-Keeps id _ _
            (bind-Keeps id _ _
              (bind-Keeps id (update_status o.id rejected) _
                (update_status-Keeps id o.id rejected refl) (λ row. release_funds-Keeps id o))
              (λ released.
                append_events-Keeps id (account_changed order_rejected o.id [] o.user_id ∷ [])))
            (λ done. pure-Keeps id true))
          (pure-Keeps id false)
