-- ===== src/Seed/Start.antt =====
-- backend/prisma/seed.ts: the seeded database is one that the exchange can start from.
use exchange_matching.Base.{
  ℕ, ◌+◌, ◌*◌, ◌≤◌, ◌≡◌, ◌≢◌, refl, ◌∙◌, arith, List, [], ◌∷◌, none, some, true, ◌==◌, Bool-cases,
  inl, inr,
}
use exchange_matching.Table.{find, sum_by, find-key}
use exchange_matching.Decimal.{decimal_max, scale_units}
use exchange_matching.Database.{Db, Order, Wallet, order_key, wallet_key, order_check}
use exchange_matching.Outbox.{Every}
use exchange_matching.Ledger.{Valid, Sound, Distinct, hold_usd, hold_btc, usd_total, btc_total}
use exchange_matching.Seed.Accounts.{seed_wallets, create_seed_users}
use exchange_matching.Seed.Scenario.{seed_orders, create_seed_orders_and_trades}
use exchange_matching.Seed.{seed, reset_database}
use exchange_matching.Traffic.Running.{Reach}
use exchange_matching.Traffic.Exchange.{Reach-Kept}

module _ {A : Type 0} (key : A → ℕ) where
  -- What holds of every row holds of the one that is found.
  pub find-Every :
      (P : A → Type 0) (k : ℕ) (xs : List A) (x : A) → Every P xs → find key k xs ≡ some x → P x
  unfolding find
  find-Every P k [] x h f = cc
  find-Every P k (y ∷ xs) x h f = elim (Bool-cases (key y == k)) [
    | inl same ↦ let e : y ≡ x = ground (arith, f, same) in rw⁻¹ e h.0
    | inr differs ↦ find-Every P k xs x h.1 (ground (arith, f, differs))
  ]

  find-missing : (k : ℕ) (xs : List A) → Every (λ x. key x ≢ k) xs → find key k xs ≡ none
  unfolding find
  find-missing k [] h = refl
  find-missing k (y ∷ xs) h = ground (arith, h.0, find-missing k xs h.1)

-- What the row of a seed order must satisfy.
record IsGood (o : Order) : Type 0 where
  checked : order_check o ≡ true
  fits : (o.original_amount ≤ decimal_max) × (o.price ≤ decimal_max)
  has_wallet : (w : Wallet) × (find wallet_key o.user_id seed_wallets ≡ some w)

seed_orders-IsGood : (n : ℕ) → Every IsGood (seed_orders n)
unfolding seed_orders seed_wallets order_check find
seed_orders-IsGood n = (
  record { checked = refl; fits = (omega arith, omega arith); has_wallet = (_, refl) },
  (
    record { checked = refl; fits = (omega arith, omega arith); has_wallet = (_, refl) },
    (
      record { checked = refl; fits = (omega arith, omega arith); has_wallet = (_, refl) },
      (
        record { checked = refl; fits = (omega arith, omega arith); has_wallet = (_, refl) },
        (
          record { checked = refl; fits = (omega arith, omega arith); has_wallet = (_, refl) },
          (
            record { checked = refl; fits = (omega arith, omega arith); has_wallet = (_, refl) },
            (
              record { checked = refl; fits = (omega arith, omega arith); has_wallet = (_, refl) },
              tt,
            ),
          ),
        ),
      ),
    ),
  ),
)

IsReserved : (os : List Order) → Wallet → Type 0
IsReserved os w =
    (w.reserved_usd ≡ sum_by (hold_usd w.user_id) os)
    × (w.reserved_btc ≡ sum_by (hold_btc w.user_id) os)

seed_wallets-IsReserved : (n : ℕ) → Every (IsReserved (seed_orders n)) seed_wallets
unfolding IsReserved seed_orders seed_wallets sum_by hold_usd hold_btc
seed_wallets-IsReserved n = (
  (refl, refl),
  (
    (refl, refl),
    ((refl, refl), ((refl, refl), ((refl, refl), ((refl, refl), ((refl, refl), tt))))),
  ),
)

seed_orders-Distinct : (n : ℕ) → Distinct (seed_orders n)
unfolding seed_orders
seed_orders-Distinct n = ground arith

seed_orders-fresh : (n id : ℕ) → n + 7 ≤ id → Every (λ o. o.id ≢ id) (seed_orders n)
unfolding seed_orders
seed_orders-fresh n id h = (
  omega (arith, h),
  (
    omega (arith, h),
    (
      omega (arith, h),
      (omega (arith, h), (omega (arith, h), (omega (arith, h), (omega (arith, h), tt)))),
    ),
  ),
)

seed_orders-Sound : (n : ℕ) → Sound seed_wallets (seed_orders n) (n + 7)
unfolding seed_wallets sum_by
seed_orders-Sound n = record {
  usd_fits = omega arith;
  btc_fits = omega arith;
  rows_checked =
      λ id o f. (find-Every order_key IsGood id (seed_orders n) o (seed_orders-IsGood n) f).checked;
  rows_fit =
      λ id o f. (find-Every order_key IsGood id (seed_orders n) o (seed_orders-IsGood n) f).fits;
  owned = λ id o f.
      (find-Every order_key IsGood id (seed_orders n) o (seed_orders-IsGood n) f).has_wallet;
  distinct = seed_orders-Distinct n;
  fresh = λ id h. find-missing order_key id (seed_orders n) (seed_orders-fresh n id h);
}

-- The seeded database is valid, with seven times 100,000 USD and 100 BTC in it.
pub record IsSeeded (d : Db) : Type 0 where
  pub valid : Valid d
  pub usd_whole : usd_total d ≡ 7 * 100000 * scale_units
  pub btc_whole : btc_total d ≡ 7 * 100 * scale_units

IsReserved-find :
    (n u : ℕ) (w : Wallet)
    → find wallet_key u seed_wallets ≡ some w
    → IsReserved (seed_orders n) (record w { user_id = u })
IsReserved-find n u w f =
    let e = find-key wallet_key u seed_wallets w f in
    rw⁻¹ e (
      find-Every wallet_key (IsReserved (seed_orders n)) u seed_wallets w
        (seed_wallets-IsReserved n) f)

seed-Valid : (d : Db) → Valid (seed d)
unfolding seed reset_database create_seed_users create_seed_orders_and_trades IsReserved
seed-Valid d = record {
  sound = seed_orders-Sound d.next_order;
  usd_reserved = λ u w f. (IsReserved-find d.next_order u w f).0;
  btc_reserved = λ u w f. (IsReserved-find d.next_order u w f).1;
}

seed-IsSeeded : (d : Db) → IsSeeded (seed d)
unfolding seed reset_database create_seed_users create_seed_orders_and_trades usd_total btc_total
    seed_wallets sum_by
seed-IsSeeded d = record { valid = seed-Valid d; usd_whole = refl; btc_whole = refl }

-- From the database that `seed` makes of any database, after any steps of the exchange -
-- requests that create, cancel or reject orders, and attempts at matching jobs, also
-- interrupted ones, during whose waits such requests are served - the database is valid, and
-- wallets and fees together hold 7 times 100000 USD and 7 times 100 BTC.
pub Reach-IsSeeded : (d d' : Db) → Reach (seed d) d' → IsSeeded d'
Reach-IsSeeded d d' reach =
    let start = seed-IsSeeded d in
    let kept = Reach-Kept (seed d) start.valid reach in
    record {
      valid = kept.valid;
      usd_whole = kept.usd_kept ∙ start.usd_whole;
      btc_whole = kept.btc_kept ∙ start.btc_whole;
    }
