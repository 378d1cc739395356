-- ===== src/OrderBook/Round.antt =====
-- One round of the search for makers, behind the wait for a candidate's row.
use exchange_matching.Base.{
  ℕ, ◌-◌, ◌≤◌, ◌≡◌, ◌≢◌, sym, ap, ◌∙◌, pos, ok, true, arith, List, [], ◌∷◌, ◌++◌, some, inl, inr,
  Bool-cases, if◌then◌else◌, ltb,
}
use exchange_matching.Table.{find}
use exchange_matching.Decimal.{decimal_max}
use exchange_matching.Decimal.Laws.{cost, multiply_scaled-pos, subtract_scaled-le}
use exchange_matching.Database.{Db, Order, Side, order_key}
use exchange_matching.OrderBook.Candidates.{cursor_at, is_behind, cover}
use exchange_matching.OrderBook.Priority.{BehindAll, behind_irrefl}
use exchange_matching.Ledger.{Apart}
use exchange_matching.Matching.Trading.{traded_cost-le-max}
use exchange_matching.Matching.Rounds.{
  amount_of, Running, Found, is_eligible_maker-Eligible, resting-active,
}
use exchange_matching.Matching.Run.{Makers}

-- The rows of two orders at different places are two rows.
apart_of_behind :
    (s : Side) (d : Db) (m x : Order)
    → find order_key m.id d.orders ≡ some m
    → find order_key x.id d.orders ≡ some x
    → is_behind s x.price x.sequence (cursor_at m) ≡ true
    → x.id ≢ m.id
apart_of_behind s d m x f g b e =
    let same : some x ≡ some m = sym g ∙ ap (λ (k : ℕ). find order_key k d.orders) e ∙ f in
    ground (arith, same, behind_irrefl s m)

Apart-append :
    (k : ℕ) (x : Order) (os : List Order) → Apart k os → x.id ≢ k → Apart k (os ++ x ∷ [])
Apart-append k x [] a n = (n, tt)
Apart-append k x (o ∷ os) a n = (a.0, Apart-append k x os a.1 n)

pub Makers-append :
    (taker : Order) (locked : List ℕ) (d : Db) (x : Order) (ms : List Order)
    → Makers taker locked d ms
    → Found taker x locked d
    → BehindAll taker.side x ms
    → Makers taker locked d (ms ++ x ∷ [])
Makers-append taker locked d x [] h f b = (f, tt, tt)
Makers-append taker locked d x (m ∷ ms) h f b = (
  h.0,
  Apart-append m.id x ms h.1 (apart_of_behind taker.side d m x h.0.row f.row b.0),
  Makers-append taker locked d x ms h.2 f b.1,
)

module _ (taker maker : Order) (locked : List ℕ) (n : ℕ) (d : Db)
    (run : Running taker locked taker.remaining_amount 0 d) (found : Found taker maker locked d)
    (budget : n ≤ taker.remaining_amount) where
  -- What a maker can cover costs no more than is reserved for it.
  covered_cost-le-max : cost (amount_of n maker.remaining_amount) maker.price ≤ decimal_max
  covered_cost-le-max =
      let q = amount_of n maker.remaining_amount in
      let tw = run.valid.sound.owned taker.id taker run.taker_row in
      let mw = run.valid.sound.owned maker.id maker found.row in
      let e = is_eligible_maker-Eligible taker maker found.eligible in
      elim (Bool-cases (ltb 0 (cost q maker.price))) [
        | inl positive ↦
            traded_cost-le-max taker maker taker.remaining_amount q tw.0 mw.0 d (record {
              valid = run.valid;
              taker_row = run.taker_row;
              maker_row = found.row;
              taker_wallet = tw.1;
              maker_wallet = mw.1;
              taker_active = ground (arith, run.taker_queued);
              maker_active = resting-active maker.status e.resting;
              opposed = e.opposed;
              crossing = e.crossing;
              strangers = e.strangers;
              remaining_le = omega (arith, run.split);
              within_taker = ground arith;
              within_maker = ground arith;
              positive = ground arith;
            })
        | inr free ↦ ground arith
      ]

  -- What is left to cover after this maker.
  abbrev pub left_after : ℕ
  left_after =
      let q = amount_of n maker.remaining_amount in if ltb 0 (cost q maker.price) then n - q else n

  pub cover-eq : cover (pos n) maker ≡ ok (pos left_after)
  unfolding cover
  cover-eq =
      let bound = covered_cost-le-max in
      ground (
        arith,
        run.split,
        (run.valid.sound.rows_fit taker.id taker run.taker_row).0,
        multiply_scaled-pos n maker.price,
        multiply_scaled-pos maker.remaining_amount maker.price,
        subtract_scaled-le n n,
        subtract_scaled-le n maker.remaining_amount,
      )
