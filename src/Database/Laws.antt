-- ===== src/Database/Laws.antt =====
-- The update of an order's row, when the row is there and the new one meets the constraints.
use exchange_matching.Base.{ℕ, ◌≤◌, ◌≡◌, pos, some, true, ok, arith}
use exchange_matching.Table.{find, replace}
use exchange_matching.Decimal.{decimal_max}
use exchange_matching.Database.Rows.{Db, Order, Status, order_key}
use exchange_matching.Database.Constraints.{to_column, order_check}
use exchange_matching.Database.Transaction.{Action, ◌>>=◌, update_status, update_remaining}

-- A statement that went through hands its result and its database on.
pub >>=-eq :
    {A B : Type 0} (m : Action A) (f : A → Action B) (d : Db) (a : A) (d' : Db)
    → m d ≡ ok (a, d')
    → (m >>= f) d ≡ f a d'
>>=-eq m f d a d' e = rw (e, ◌>>=◌)

-- The database with one order written.
abbrev pub with_order : ℕ → Order → Db → Db
with_order id o d = record d { orders = replace order_key id o d.orders }

module _ (id : ℕ) (o : Order) (d : Db) (found : find order_key id d.orders ≡ some o) where
  pub update_status-eq :
      (s : Status)
      → order_check (record o { status = s }) ≡ true
      → update_status id s d
        ≡ ok (record o { status = s }, with_order id (record o { status = s }) d)
  unfolding update_status
  update_status-eq s c = ground (arith, found, c)

  pub update_remaining-eq :
      (n : ℕ) (s : Status)
      → n ≤ decimal_max
      → order_check (record o { remaining_amount = n; status = s }) ≡ true
      → update_remaining id (pos n) s d
        ≡ ok (
          record o { remaining_amount = n; status = s },
          with_order id (record o { remaining_amount = n; status = s }) d,
        )
  unfolding update_remaining to_column
  update_remaining-eq n s h c = ground (arith, found, c)
