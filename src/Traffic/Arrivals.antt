-- ===== src/Traffic/Arrivals.antt =====
-- The creation of an order by another transaction: backend/src/orders/orders.service.ts, `createOrder`.
use exchange_matching.Base.{
  ℕ, ◌≤◌, ◌<◌, ◌≡◌, refl, sym, ap, ◌∙◌, List, none, some, arith, ok, pos, ℤ, Option-cases,
  Result-cases, inl, inr,
}
use exchange_matching.Table.{find}
use exchange_matching.Decimal.{DecimalValue, decimal_max}
use exchange_matching.Decimal.Input.{
  check_positive_decimal, IsPositiveInput, check_positive_decimal-IsPositiveInput,
}
use exchange_matching.Database.{Db, Order, Wallet, Side, wallet_key}
use exchange_matching.Wallets.{find_by_user_id}
use exchange_matching.Orders.{create_order, place_order}
use exchange_matching.Orders.Place.{new_order, placed-ValidBut, placed_totals}
use exchange_matching.Orders.Create.{answer-ok, create_order-answer}
use exchange_matching.Ledger.{Sound}
use exchange_matching.Traffic.Steps.{Harmless, Harmless-refl, SameBook-append}
use exchange_matching.Traffic.{commit}

module _ (locked : List ℕ) (u : ℕ) (s : Side) (d : Db)
    (sound : Sound d.wallets d.orders d.next_order) where
  -- A user without a wallet cannot create an order.
  no_wallet :
      (a p : ℤ) (o : Order) (d' : Db)
      → find wallet_key u d.wallets ≡ none
      → create_order u s (ok a) (ok p) d ≡ ok (o, d')
      → Harmless locked d d'
  unfolding create_order place_order find_by_user_id
  no_wallet a p o d' missing h = ground (arith, missing)

  created-Harmless :
      (a p : ℕ) (w : Wallet) (o : Order) (d' : Db)
      → find wallet_key u d.wallets ≡ some w
      → 0 < a
      → a ≤ decimal_max
      → 0 < p
      → p ≤ decimal_max
      → create_order u s (ok (pos a)) (ok (pos p)) d ≡ ok (o, d')
      → Harmless locked d d'
  created-Harmless a p w o d' wallet ap af pp pf h =
      let known =
        answer-ok u s a p w d o d'
          (sym (create_order-answer u s a p w d sound wallet ap af pp pf) ∙ h) in
      let totals = placed_totals u s a p w d sound wallet ap af pp pf known.0 known.1 in
      rw⁻¹ known.3 (record {
        valid =
            λ t t' v. placed-ValidBut u s a p w d sound wallet ap af pp pf known.0 known.1 t t' v;
        book = SameBook-append locked (new_order u s a p d) d.orders refl;
        usd_kept = totals.0;
        btc_kept = totals.1;
      })

  parsed-Harmless :
      (a p : ℤ) (o : Order) (d' : Db)
      → IsPositiveInput a
      → IsPositiveInput p
      → create_order u s (ok a) (ok p) d ≡ ok (o, d')
      → Harmless locked d d'
  parsed-Harmless a p o d' ia ip h = elim (Option-cases (find wallet_key u d.wallets)) [
    | inl missing ↦ no_wallet a p o d' missing h
    | inr (w, wallet) ↦
        created-Harmless ia.units ip.units w o d' wallet ia.positive ia.fits ip.positive ip.fits
          (rw (sym ia.same, sym ip.same) h)
  ]

  accepted-Harmless :
      (v w : DecimalValue) (o : Order) (d' : Db)
      → create_order u s (check_positive_decimal v) (check_positive_decimal w) d ≡ ok (o, d')
      → Harmless locked d d'
  unfolding create_order
  accepted-Harmless v w o d' h = elim (Result-cases (check_positive_decimal v)) [
    | inl (e, failed) ↦ ground (arith, failed)
    | inr (a, first) ↦ elim (Result-cases (check_positive_decimal w)) [
      | inl (e, failed) ↦ ground (arith, first, failed)
      | inr (p, second) ↦
          parsed-Harmless a p o d' (check_positive_decimal-IsPositiveInput v a first)
            (check_positive_decimal-IsPositiveInput w p second) (rw (first, second) at h)
    ]
  ]

  pub create_order-Harmless :
      (v w : DecimalValue)
      → Harmless locked d
          (commit (create_order u s (check_positive_decimal v) (check_positive_decimal w) d) d)
  create_order-Harmless v w =
      elim (Result-cases
        (create_order u s (check_positive_decimal v) (check_positive_decimal w) d)) [
          | inl (e, failed) ↦ rw failed (Harmless-refl locked d)
          | inr (r, done) ↦ rw done (accepted-Harmless v w r.0 r.1 done)
        ]
