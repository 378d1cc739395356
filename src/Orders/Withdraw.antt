-- ===== src/Orders/Withdraw.antt =====
-- What `cancelOrder` and `rejectOrderAfterFailedProcessing` leave behind.
use exchange_matching.Base.{◌≡◌, refl, ok, true, false, List, some, Result}
use exchange_matching.Table.{find, replace, find-replace_self}
use exchange_matching.Database.{
  Db, Order, Event, Wallet, Status, order_key, wallet_key, order_check,
}
use exchange_matching.Wallets.Reservations.{release_in}
use exchange_matching.Orders.{is_active_status}
use exchange_matching.Ledger.{Valid, usd_total, btc_total}
use exchange_matching.Orders.Release.{
  with_status, held_by, released, same_owner, Valid-covered, released-Valid, usd_total-released,
  btc_total-released,
}

-- The transaction answered `a`, the order has status `s`, its user has the funds back that it held,
-- and the database is valid.
pub record Withdrawn {A : Type 0} (o : Order) (s : Status) (a : A) (d : Db)
    (result : Result (A × Db)) : Type 0 where
  pub owner : Wallet
  pub after : Db
  pub owner_row : find wallet_key o.user_id d.wallets ≡ some owner
  pub returns : result ≡ ok (a, after)
  pub valid : Valid after
  pub order_row : find order_key o.id after.orders ≡ some (with_status o s)
  pub wallet_row :
      find wallet_key o.user_id after.wallets ≡ some (release_in o.side (held_by o) owner)
  pub wallets_eq :
      after.wallets ≡ replace wallet_key o.user_id (release_in o.side (held_by o) owner) d.wallets
  pub orders_eq : after.orders ≡ replace order_key o.id (with_status o s) d.orders
  pub usd_kept : usd_total after ≡ usd_total d
  pub btc_kept : btc_total after ≡ btc_total d

module _ {A : Type 0} (o : Order) (s : Status) (a : A) (es : List Event) (d : Db) (v : Valid d)
    (row : find order_key o.id d.orders ≡ some o) (active : is_active_status o.status ≡ true)
    (inactive : is_active_status s ≡ false) (checked : order_check (with_status o s) ≡ true)
    (result : Result (A × Db)) where
  pub released-Withdrawn :
      (w : Wallet)
      → find wallet_key o.user_id d.wallets ≡ some w
      → result ≡ ok (a, released o s w es d)
      → Withdrawn o s a d result
  released-Withdrawn w wallet e =
      let covered = Valid-covered o s w es d v row wallet active in
      record {
        owner = w;
        after = released o s w es d;
        owner_row = wallet;
        returns = e;
        valid = released-Valid o s w es d v row wallet active inactive checked;
        order_row = find-replace_self order_key o.id (with_status o s) d.orders o row refl;
        wallet_row =
            find-replace_self wallet_key o.user_id (release_in o.side (held_by o) w) d.wallets w
              wallet (same_owner o s w es d row wallet active covered);
        wallets_eq = refl;
        orders_eq = refl;
        usd_kept = usd_total-released o s w es d row wallet active covered;
        btc_kept = btc_total-released o s w es d row wallet active covered;
      }
