-- ===== src/Outbox.antt =====
-- The two outboxes: rows that a transaction wrote, which a dispatcher claims in batches, delivers, and
-- marks or releases. A clock gives the time in milliseconds; texts of errors are left out.
pub mod Realtime
pub mod Queue
pub mod Fencing
pub mod Retries
pub mod Claims
pub mod Lifecycle
pub mod Progress
pub mod Draining
pub mod Client
pub mod Polling
pub mod Tracking
pub mod Handover
pub mod Removal
pub mod Arrival
unfoldable pub use exchange_matching.Table.{limit, where_rows}
use exchange_matching.Base.{
  ℕ, zero, suc, ◌+◌, ◌-◌, ◌*◌, ◌==◌, List, [], ◌∷◌, map, Option, none, some, Bool, true, false, ltb,
  leb, ◌&&◌, ◌||◌, if◌then◌else◌,
}

-- `column IS NULL OR column <= NOW()`
abbrev pub is_due : Option ℕ → (now : ℕ) → Bool
is_due none now = true
is_due (some t) now = leb t now

-- `claimed_at IS NULL OR claimed_at < NOW() - timeout`, the timeout in seconds.
abbrev pub is_unclaimed : Option ℕ → (now timeout : ℕ) → Bool
is_unclaimed none now timeout = true
is_unclaimed (some t) now timeout = ltb (t + timeout * 1000) now

abbrev pub is_null : Option ℕ → Bool
is_null none = true
is_null (some t) = false

-- `column = value`, which a missing value does not satisfy.
abbrev pub holds : Option ℕ → ℕ → Bool
holds none n = false
holds (some m) n = m == n

-- `column <= value`
abbrev pub is_until : Option ℕ → ℕ → Bool
is_until none n = false
is_until (some m) n = leb m n

module _ {A : Type 0} where
  -- ORDER BY a column, ascending; rows with equal values keep their order.
  unfoldable pub insert_by : (A → ℕ) → A → List A → List A
  insert_by key x [] = x ∷ []
  insert_by key x (y ∷ ys) = if leb (key x) (key y) then x ∷ y ∷ ys else y ∷ insert_by key x ys

  unfoldable pub order_by : (A → ℕ) → List A → List A
  unfolding insert_by
  order_by key [] = []
  order_by key (x ∷ xs) = insert_by key x (order_by key xs)

  -- UPDATE ... WHERE
  unfoldable pub update_rows : (A → Bool) → (A → A) → List A → List A
  update_rows p f [] = []
  update_rows p f (x ∷ xs) = (if p x then f x else x) ∷ update_rows p f xs

  abbrev pub Every : (A → Type 0) → List A → Type 0
  Every P [] = Unit {0}
  Every P (x ∷ xs) = P x × Every P xs

-- How the delivery of a claimed row ends: delivered and marked; failed, and released; or failed with a
-- release that failed too, so that the lease must expire. A failure after the delivery `reached` its
-- destination is one of the statement that marks the row.
pub data Delivery : Type 0 where
  delivered : Delivery
  failed : (reached : Bool) → Delivery
  stuck : (reached : Bool) → Delivery

module _ {A : Type 0} (key : A → ℕ) where
  -- A join on the primary key.
  unfoldable pub has_key : ℕ → List A → Bool
  has_key k [] = false
  has_key k (x ∷ xs) = key x == k || has_key k xs

  -- The common table expression `claimable`, and the update of the rows that join it. The rows that
  -- another transaction has locked are skipped.
  unfoldable pub claim_rows :
      (claimable : A → Bool) (created_at : A → ℕ) (batch_size : ℕ) (set : A → A)
      → List A
      → List A × List A
  unfolding limit order_by where_rows update_rows has_key
  claim_rows claimable created_at batch_size set rows =
      let chosen = limit batch_size (order_by created_at (where_rows claimable rows)) in
      (map set chosen, update_rows (λ r. has_key (key r) chosen) set rows)
