-- ===== src/Traffic/Isolation.antt =====
-- The requests of users keep the isolation that the matching transaction relies on.
use exchange_matching.Base.{ℕ, ◌<◌, ◌≡◌, List, [], ◌∷◌, none, some, false, Bool-cases, inl, inr}
use exchange_matching.Table.{find}
use exchange_matching.Database.{Db, Order, order_key, queued}
use exchange_matching.Matching.{process_order}
use exchange_matching.Matching.Process.{Processed, process_order-Processed}
use exchange_matching.Ledger.{Valid, ValidBut, Sound}
use exchange_matching.Ledger.Waiting.{Isolated, ahead}
use exchange_matching.Traffic.Steps.{Harmless, Harmless-refl, Harmless-trans, Harmless-Quiet}
use exchange_matching.Traffic.Withdrawals.{cancel_order-Harmless, reject_order-Harmless}
use exchange_matching.Traffic.Arrivals.{create_order-Harmless}
use exchange_matching.Traffic.{
  Request, create, cancel, reject, serve, serve_all, is_blocked, Schedule, waits_of,
}

pub serve-Harmless :
    (locked : List ℕ) (r : Request) (d : Db)
    → Sound d.wallets d.orders d.next_order
    → is_blocked locked r ≡ false
    → Harmless locked d (serve r d)
unfolding serve
serve-Harmless locked (create u s a p) d sound free = create_order-Harmless locked u s d sound a p
serve-Harmless locked (cancel u id) d sound free = cancel_order-Harmless locked id d sound free u
serve-Harmless locked (reject id) d sound free = reject_order-Harmless locked id d sound free

pub serve_all-Harmless :
    (locked : List ℕ) (rs : List Request) (t t' : Order) (d : Db)
    → ValidBut t t' d
    → Harmless locked d (serve_all locked rs d)
unfolding serve_all
serve_all-Harmless locked [] t t' d v = Harmless-refl locked d
serve_all-Harmless locked (r ∷ rs) t t' d v = elim (Bool-cases (is_blocked locked r)) [
  | inl blocked ↦ rw blocked (serve_all-Harmless locked rs t t' d v)
  | inr free ↦
      let first = serve-Harmless locked r d v.sound free in
      rw free (
        Harmless-trans locked d (serve r d) (serve_all locked rs (serve r d)) first
          (serve_all-Harmless locked rs t t' (serve r d) (first.valid t t' v)))
]

-- For every schedule of requests that create, cancel or reject orders, in which those for a
-- locked order wait, the waits of the schedule are isolated: the invariant holds on, locked
-- rows stay, the totals stay, and no order enters the book.
pub waits_of-Isolated : (s : Schedule) → Isolated (waits_of s)
waits_of-Isolated s = record {
  order_wait = λ locked id t t' d v.
      Harmless-Quiet locked d (serve_all locked (s.for_order locked id) d)
        (serve_all-Harmless locked (s.for_order locked id) t t' d v);
  wallets_wait = λ locked user t t' d v.
      Harmless-Quiet locked d (serve_all locked (s.for_wallets locked user) d)
        (serve_all-Harmless locked (s.for_wallets locked user) t t' d v);
}

pub process_order_among_requests :
    (s : Schedule) (taker : Order) (fuel : ℕ) (d : Db)
    → Valid d
    → find order_key taker.id d.orders ≡ some taker
    → taker.status ≡ queued
    → ahead taker none d.orders < fuel
    → Processed taker d (process_order (waits_of s) fuel taker.id d)
process_order_among_requests s taker fuel d v row q h =
    process_order-Processed (waits_of s) (waits_of-Isolated s) taker fuel d v row q h
