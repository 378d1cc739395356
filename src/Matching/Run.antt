-- ===== src/Matching/Run.antt =====
-- The whole matching loop: it returns on every list of makers that the search has found, keeps the
-- invariant, and makes no money.
use exchange_matching.Base.{
  ℕ, ◌+◌, ◌-◌, ◌<◌, ◌≡◌, ◌≢◌, refl, ◌∙◌, inl, inr, some, true, arith, List, [], ◌∷◌, ◌==◌, leb,
  Bool-cases,
}
use exchange_matching.Table.{find, find-replace_ne}
use exchange_matching.Decimal.Laws.{cost}
use exchange_matching.Database.{Db, Order, order_key}
use exchange_matching.Database.Laws.{>>=-eq}
use exchange_matching.OrderBook.{Waits}
use exchange_matching.Ledger.{Apart}
use exchange_matching.Ledger.Waiting.{Isolated}
use exchange_matching.Matching.Loop.{match_maker, match_makers, contains, add_user}
use exchange_matching.Matching.Money.{maker_after}
use exchange_matching.Matching.Step.{traded}
use exchange_matching.Matching.Trading.{
  progress, trade_with-eq, traded-ValidBut, traded_cost-le-max,
}
use exchange_matching.Matching.Conservation.{traded-usd_total, traded-btc_total}
use exchange_matching.Matching.Rounds.{
  amount_of, Running, Found, Outcome, ids-differ, match_maker-skip, match_maker-trade, meeting,
  is_eligible_maker-Eligible,
}

-- The other locked rows are as they were.
abbrev pub KeepsOthers : (locked : List ℕ) (id : ℕ) → Db → Db → Type 0
KeepsOthers locked id d d' =
    (j : ℕ) (o : Order)
    → j ≢ id
    → contains j locked ≡ true
    → find order_key j d.orders ≡ some o
    → find order_key j d'.orders ≡ some o

module _ (waits : Waits) (iso : Isolated waits) (locked : List ℕ) (taker : Order) where
  -- One round.
  match_maker-Outcome :
      (maker : Order) (r k : ℕ) (us ts : List ℕ) (d : Db)
      → Running taker locked r k d
      → Found taker maker locked d
      → (o : Outcome taker locked d (match_maker waits locked taker maker (progress r k us ts) d))
        × KeepsOthers locked maker.id d o.after
  match_maker-Outcome maker r k us ts d run found =
      let q = amount_of r maker.remaining_amount in
      elim (Bool-cases (cost q maker.price == 0)) [
        | inl free ↦ (
          record {
            left = r;
            done = k;
            users = us;
            trade_ids = ts;
            after = d;
            returns = match_maker-skip waits iso locked taker maker r k us ts d (ground arith);
            running = run;
            usd_kept = refl;
            btc_kept = refl;
          },
          λ j o n h f. f,
        )
        | inr paid ↦
            let positive : 0 < cost q maker.price = ground arith in
            let met = meeting waits iso locked taker maker r k us ts d run found positive in
            let d' = waits.for_wallets locked maker.user_id d in
            let quiet = iso.wallets_wait locked maker.user_id _ _ d run.valid in
            let m = met.2 in
            let e = is_eligible_maker-Eligible taker maker found.eligible in
            (
              record {
                left = r - q;
                done = k + q;
                users = add_user maker.user_id us;
                trade_ids = _;
                after = traded taker maker r q met.0 met.1 d';
                returns =
                    match_maker-trade waits iso locked taker maker r k us ts d e.left positive
                      (traded_cost-le-max taker maker r q met.0 met.1 d' m)
                    ∙ trade_with-eq waits locked taker maker r q k us ts met.0 met.1 d m (
                        omega (
                          arith,
                          run.split,
                          m.within_taker,
                          (m.valid.sound.rows_fit taker.id taker m.taker_row).0,
                        ));
                running = record {
                  valid = traded-ValidBut taker maker r q met.0 met.1 d' m;
                  taker_row =
                      find-replace_ne order_key taker.id maker.id (maker_after maker q) d'.orders
                        (ids-differ taker maker d' m.taker_row m.maker_row e.strangers) refl
                      ∙ m.taker_row;
                  taker_locked = run.taker_locked;
                  taker_queued = run.taker_queued;
                  split = omega (arith, run.split, m.within_taker);
                };
                usd_kept = traded-usd_total taker maker r q met.0 met.1 d' m ∙ quiet.keeps_usd;
                btc_kept = traded-btc_total taker maker r q met.0 met.1 d' m ∙ quiet.keeps_btc;
              },
              λ j o n h f.
                  find-replace_ne order_key j maker.id (maker_after maker q) d'.orders n refl
                  ∙ quiet.keeps_rows j o h f,
            )
      ]

-- Makers that the search has found and locked, each once.
abbrev pub Makers : (taker : Order) (locked : List ℕ) → Db → List Order → Type 0
Makers taker locked d [] = Unit {0}
Makers taker locked d (o ∷ os) = Found taker o locked d × Apart o.id os × Makers taker locked d os

Makers-keep :
    (taker : Order) (locked : List ℕ) (id : ℕ) (d d' : Db) (os : List Order)
    → KeepsOthers locked id d d'
    → Apart id os
    → Makers taker locked d os
    → Makers taker locked d' os
Makers-keep taker locked id d d' [] keep apart ms = tt
Makers-keep taker locked id d d' (o ∷ os) keep apart ms = (
  record {
    row = keep o.id o apart.0 ms.0.held ms.0.row;
    held = ms.0.held;
    eligible = ms.0.eligible;
  },
  ms.1,
  Makers-keep taker locked id d d' os keep apart.1 ms.2,
)

module _ (waits : Waits) (iso : Isolated waits) (locked : List ℕ) (taker : Order) where
  pub match_makers-Outcome :
      (os : List Order) (r k : ℕ) (us ts : List ℕ) (d : Db)
      → Running taker locked r k d
      → Makers taker locked d os
      → Outcome taker locked d (match_makers waits locked taker os (progress r k us ts) d)
  unfolding match_makers
  match_makers-Outcome [] r k us ts d run ms = record {
    left = r;
    done = k;
    users = us;
    trade_ids = ts;
    after = d;
    returns = refl;
    running = run;
    usd_kept = refl;
    btc_kept = refl;
  }
  match_makers-Outcome (o ∷ os) r k us ts d run ms = elim (Bool-cases (leb r 0)) [
    | inl filled ↦ record {
      left = r;
      done = k;
      users = us;
      trade_ids = ts;
      after = d;
      returns = rw (filled, match_makers);
      running = run;
      usd_kept = refl;
      btc_kept = refl;
    }
    | inr more ↦
        let (one, keep) = match_maker-Outcome waits iso locked taker o r k us ts d run ms.0 in
        let rest =
          match_makers-Outcome os one.left one.done one.users one.trade_ids one.after one.running
            (Makers-keep taker locked o.id d one.after os keep ms.1 ms.2) in
        record {
          left = rest.left;
          done = rest.done;
          users = rest.users;
          trade_ids = rest.trade_ids;
          after = rest.after;
          returns =
              rw (more, match_makers)
                (>>=-eq (match_maker waits locked taker o (progress r k us ts))
                    (match_makers waits locked taker os) d
                    (progress one.left one.done one.users one.trade_ids) one.after one.returns
                  ∙ rest.returns);
          running = rest.running;
          usd_kept = rest.usd_kept ∙ one.usd_kept;
          btc_kept = rest.btc_kept ∙ one.btc_kept;
        }
  ]
