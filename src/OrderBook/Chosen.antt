-- ===== src/OrderBook/Chosen.antt =====
-- The makers that `findAndLockEligibleMakers` of backend/src/matching/matching-order-book.service.ts
-- chooses, by the rules of the book: nobody who may trade is passed over.
use exchange_matching.Base.{ℕ, ◌<◌, ◌≡◌, ◌⊎◌, true, pos, ok, List, [], ◌∷◌, some, Result}
use exchange_matching.Table.{find}
use exchange_matching.Database.{Db, Order, Side, order_key}
use exchange_matching.OrderBook.Candidates.{cursor_at}
use exchange_matching.OrderBook.Rules.{Faces, Behind, left_over}
use exchange_matching.OrderBook.{Search}
use exchange_matching.Ledger.{usd_total, btc_total}
use exchange_matching.Matching.{contains}
use exchange_matching.OrderBook.Seen.{Each, Among, Seen}

-- A maker that was chosen: its row is there and locked, and it may trade with the taker.
pub record IsMaker (taker : Order) (locked : List ℕ) (d : Db) (m : Order) : Type 0 where
  pub row : find order_key m.id d.orders ≡ some m
  pub held : contains m.id locked ≡ true
  pub faces : Faces taker m
  pub has_left : 0 < m.remaining_amount

-- Each is behind those before it.
abbrev pub InOrder : Side → List Order → Type 0
InOrder s [] = Unit {0}
InOrder s (m ∷ ms) = Each (λ x. Behind s x.price x.sequence (cursor_at m)) ms × InOrder s ms

-- A search that returns the right makers.
pub record IsChosen (taker : Order) (d : Db) (result : Result (Search × Db)) : Type 0 where
  pub found : Search
  pub after : Db
  pub returns : result ≡ ok (found, after)
  pub makers : Each (IsMaker taker found.locked after) found.makers
  pub in_order : InOrder taker.side found.makers
  pub left_eq : found.remaining ≡ pos (left_over taker.remaining_amount found.makers)
  pub complete :
      (j : ℕ) (y : Order)
      → find order_key j after.orders ≡ some y
      → Faces taker y
      → 0 < y.remaining_amount
      → Among y found.makers
        ⊎ ((left_over taker.remaining_amount found.makers ≡ 0)
            × Each (λ m. Behind taker.side y.price y.sequence (cursor_at m)) found.makers)
  pub usd_kept : usd_total after ≡ usd_total d
  pub btc_kept : btc_total after ≡ btc_total d
