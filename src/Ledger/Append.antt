-- ===== src/Ledger/Append.antt =====
-- How the invariant goes through the insertion of an order.
use exchange_matching.Base.{
  ℕ, suc, ◌≤◌, ◌≡◌, ◌≢◌, sym, ◌∙◌, arith, List, [], ◌∷◌, ◌++◌, none, some, true, Bool-cases, inl,
  inr, ◌==◌, ==→eq,
}
use exchange_matching.Table.{find}
use exchange_matching.Decimal.{decimal_max}
use exchange_matching.Database.{Order, Wallet, wallet_key, order_key, order_check}
use exchange_matching.Ledger.{Apart, Distinct, Sound}

find-append_other :
    (k : ℕ) (o : Order) (os : List Order)
    → o.id ≢ k
    → find order_key k (os ++ o ∷ []) ≡ find order_key k os
unfolding find
find-append_other k o [] n = ground arith
find-append_other k o (x ∷ os) n = ground (arith, find-append_other k o os n)

pub find-append_new :
    (o : Order) (os : List Order)
    → find order_key o.id os ≡ none
    → find order_key o.id (os ++ o ∷ []) ≡ some o
unfolding find
find-append_new o [] h = ground arith
find-append_new o (x ∷ os) h = ground (arith, find-append_new o os)

append-Apart :
    (k : ℕ) (o : Order) (os : List Order) → o.id ≢ k → Apart k os → Apart k (os ++ o ∷ [])
append-Apart k o [] n a = (n, tt)
append-Apart k o (x ∷ os) n a = (a.0, append-Apart k o os n a.1)

append-Distinct :
    (o : Order) (os : List Order)
    → find order_key o.id os ≡ none
    → Distinct os
    → Distinct (os ++ o ∷ [])
unfolding find
append-Distinct o [] h a = (tt, tt)
append-Distinct o (x ∷ os) h a =
    let ne : o.id ≢ x.id = ground arith in
    let later : find order_key o.id os ≡ none = ground arith in
    (append-Apart x.id o os ne a.0, append-Distinct o os later a.1)

pub Sound-append :
    (ws : List Wallet) (os : List Order) (n : ℕ) (o : Order) (w : Wallet)
    → Sound ws os n
    → o.id ≡ n
    → order_check o ≡ true
    → o.original_amount ≤ decimal_max
    → o.price ≤ decimal_max
    → find wallet_key o.user_id ws ≡ some w
    → Sound ws (os ++ o ∷ []) (suc n)
Sound-append ws os n o w s e c amount price own =
    let new : find order_key o.id os ≡ none = s.fresh o.id (omega (arith, e)) in
    let last = find-append_new o os new in
    record {
      usd_fits = s.usd_fits;
      btc_fits = s.btc_fits;
      rows_checked = λ j x g. elim (Bool-cases (o.id == j)) [
        | inl same ↦ ground (arith, ==→eq o.id j same, last, g, c)
        | inr differ ↦
            let ne : o.id ≢ j = ground arith in
            s.rows_checked j x (sym (find-append_other j o os ne) ∙ g)
      ];
      rows_fit = λ j x g. elim (Bool-cases (o.id == j)) [
        | inl same ↦ ground (arith, ==→eq o.id j same, last, g, amount, price)
        | inr differ ↦
            let ne : o.id ≢ j = ground arith in
            s.rows_fit j x (sym (find-append_other j o os ne) ∙ g)
      ];
      owned = λ j x g. elim (Bool-cases (o.id == j)) [
        | inl same ↦
            let same_row : o ≡ x = ground (arith, ==→eq o.id j same, last, g) in
            (w, rw (sym same_row) own)
        | inr differ ↦
            let ne : o.id ≢ j = ground arith in s.owned j x (sym (find-append_other j o os ne) ∙ g)
      ];
      distinct = append-Distinct o os new s.distinct;
      fresh = λ j h.
          let ne : o.id ≢ j = omega (arith, e, h) in
          find-append_other j o os ne ∙ s.fresh j (omega (arith, h));
    }
