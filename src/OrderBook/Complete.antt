-- ===== src/OrderBook/Complete.antt =====
-- The search for makers returns, on fuel for the candidates that there are at its start.
use exchange_matching.Base.{
  ℕ, zero, suc, ◌<◌, ◌≡◌, refl, ◌∙◌, pos, ok, true, arith, [], ◌∷◌, none, some, ◌⊎◌, inl, inr,
  Option-cases, Result,
}
use exchange_matching.Table.{find}
use exchange_matching.Database.{Db, Order, queued, order_key, order_check}
use exchange_matching.OrderBook.Candidates.{cursor_at, find_next_candidate}
use exchange_matching.OrderBook.Ahead.{ahead-lt}
use exchange_matching.OrderBook.Found.{Searching, searched, consider-Searching}
use exchange_matching.OrderBook.{
  Waits, Search, next_candidate, search_makers, find_and_lock_eligible_makers,
}
use exchange_matching.Ledger.{Valid, usd_total, btc_total}
use exchange_matching.Ledger.Moves.{Valid→ValidBut}
use exchange_matching.Ledger.Waiting.{Isolated, ahead}
use exchange_matching.Matching.{contains}

-- A search that returns: `left` is not covered by makers, and that only if the book has no more.
pub record SearchOutcome (taker : Order) (d : Db) (result : Result (Search × Db)) : Type 0 where
  pub found : Search
  pub left : ℕ
  pub after : Db
  pub returns : result ≡ ok (found, after)
  pub state : Searching taker found left after
  pub complete : (left ≡ 0) ⊎ (find_next_candidate taker found.cursor after.orders ≡ none)
  pub usd_kept : usd_total after ≡ usd_total d
  pub btc_kept : btc_total after ≡ btc_total d

-- A queued order is untouched.
pub order_check-queued :
    (o : Order) → o.status ≡ queued → order_check o ≡ true → o.remaining_amount ≡ o.original_amount
unfolding order_check
order_check-queued o q h = ground arith

module _ (waits : Waits) (iso : Isolated waits) (taker : Order) where
  next_candidate-none :
      (s : Search) (n : ℕ) (d : Db)
      → s.remaining ≡ pos n
      → next_candidate waits taker s d ≡ none
      → (n ≡ 0) ⊎ (find_next_candidate taker s.cursor d.orders ≡ none)
  unfolding next_candidate
  next_candidate-none s n d e h = ground (arith, e)

  pub next_candidate-some :
      (s : Search) (d : Db) (c : Order)
      → next_candidate waits taker s d ≡ some c
      → find_next_candidate taker s.cursor d.orders ≡ some c
  unfolding next_candidate
  next_candidate-some s d c h = ground arith

  search_makers-Outcome :
      (fuel : ℕ) (s : Search) (n : ℕ) (d : Db)
      → Searching taker s n d
      → ahead taker s.cursor d.orders < fuel
      → SearchOutcome taker d (search_makers waits taker fuel s d)
  unfolding search_makers
  search_makers-Outcome zero s n d here h = absurd (omega arith)
  search_makers-Outcome (suc fuel) s n d here h =
      elim (Option-cases (next_candidate waits taker s d)) [
        | inl end ↦ record {
          found = s;
          left = n;
          after = d;
          returns = rw (end, search_makers);
          state = here;
          complete = next_candidate-none s n d here.budget end;
          usd_kept = refl;
          btc_kept = refl;
        }
        | inr (c, e) ↦
            let next = next_candidate-some s d c e in
            let d' = waits.for_order s.locked c.id d in
            let quiet = iso.order_wait s.locked c.id _ _ d here.running.valid in
            let (n', ms, went, state) = consider-Searching taker s n d d' c quiet here next in
            let fewer = ahead-lt taker s.cursor d.orders c here.running.valid.sound.distinct next in
            let rest =
              search_makers-Outcome fuel (searched s c (pos n') ms) n' d' state
                (omega (arith, fewer, quiet.keeps_ahead taker (some (cursor_at c)))) in
            record {
              found = rest.found;
              left = rest.left;
              after = rest.after;
              returns = rw (e, search_makers, went) rest.returns;
              state = rest.state;
              complete = rest.complete;
              usd_kept = rest.usd_kept ∙ quiet.keeps_usd;
              btc_kept = rest.btc_kept ∙ quiet.keeps_btc;
            }
      ]

  -- The search as it begins.
  abbrev pub started : Search
  started = record {
    cursor = none;
    remaining = pos taker.remaining_amount;
    makers = [];
    locked = taker.id ∷ [];
  }

  pub started-Searching :
      (d : Db)
      → Valid d
      → find order_key taker.id d.orders ≡ some taker
      → taker.status ≡ queued
      → Searching taker started taker.remaining_amount d
  unfolding contains
  started-Searching d v row q =
      let checked = order_check-queued taker q (v.sound.rows_checked taker.id taker row) in
      record {
        running = record {
          valid = Valid→ValidBut taker d v;
          taker_row = row;
          taker_locked = ground arith;
          taker_queued = q;
          split = omega (arith, checked);
        };
        budget = refl;
        within = omega arith;
        makers = tt;
        ordered = tt;
        none_past = tt;
      }

  -- From a valid database, for a queued order whose row it holds, with isolated waits and more fuel
  -- than candidates, the search returns.
  pub find_and_lock-Outcome :
      (fuel : ℕ) (d : Db)
      → Valid d
      → find order_key taker.id d.orders ≡ some taker
      → taker.status ≡ queued
      → ahead taker none d.orders < fuel
      → SearchOutcome taker d (find_and_lock_eligible_makers waits taker fuel d)
  unfolding find_and_lock_eligible_makers
  find_and_lock-Outcome fuel d v row q h =
      search_makers-Outcome fuel started taker.remaining_amount d (started-Searching d v row q) h
