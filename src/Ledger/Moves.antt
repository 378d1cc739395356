-- ===== src/Ledger/Moves.antt =====
-- How the invariant of the money goes through the writes of one wallet and one order.
use exchange_matching.Base.{
  ℕ, ◌+◌, ◌≤◌, ◌≡◌, ◌≢◌, sym, ap, ◌∙◌, some, true, arith, List, [], ◌∷◌, ◌==◌, Bool-cases, inl, inr,
  ==→eq,
}
use exchange_matching.Table.{
  find, replace, find-replace_self, find-replace_ne, sum_by-find-le, sum_by-replace,
  sum_by-replace_two,
}
use exchange_matching.Database.{Db, Order, Wallet, wallet_key, order_key, order_check}
use exchange_matching.Wallets.Effects.{IsInRange}
use exchange_matching.Ledger.{usd_of, btc_of, Apart, Distinct, Covers, Sound, ValidBut, Valid}

-- One wallet is written, and what it must cover moves with it.
pub Covers-replace :
    (r : Wallet → ℕ) (left right right' : ℕ → ℕ) (ws : List Wallet) (u : ℕ) (w w' : Wallet)
    → Covers r left right ws
    → find wallet_key u ws ≡ some w
    → w'.user_id ≡ u
    → ((v : ℕ) → v ≢ u → right v ≡ right' v)
    → r w' + right u ≡ r w + right' u
    → Covers r left right' (replace wallet_key u w' ws)
Covers-replace r left right right' ws u w w' c f k other own v x g = elim (Bool-cases (v == u)) [
  | inl same ↦
      let e = ==→eq v u same in
      ground (arith, e, find-replace_self wallet_key u w' ws w f k, c u w f, g)
  | inr differ ↦
      let ne : v ≢ u = ground arith in
      omega (arith, other v ne, c v x (sym (find-replace_ne wallet_key v u w' ws ne k) ∙ g))
]

-- Two wallets are written.
pub Covers-replace_two :
    (r : Wallet → ℕ) (left right right' : ℕ → ℕ) (ws : List Wallet) (u v : ℕ) (w w' x x' : Wallet)
    → Covers r left right ws
    → v ≢ u
    → find wallet_key u ws ≡ some w
    → find wallet_key v ws ≡ some x
    → w'.user_id ≡ u
    → x'.user_id ≡ v
    → ((k : ℕ) → k ≢ u → k ≢ v → right k ≡ right' k)
    → r w' + right u ≡ r w + right' u
    → r x' + right v ≡ r x + right' v
    → Covers r left right' (replace wallet_key v x' (replace wallet_key u w' ws))
Covers-replace_two r left right right' ws u v w w' x x' c n fw fx kw kx other ow ox k y g =
    let fx' = find-replace_ne wallet_key v u w' ws n kw ∙ fx in
    elim (Bool-cases (k == v)) [
      | inl same ↦ ground (
        arith,
        ==→eq k v same,
        find-replace_self wallet_key v x' (replace wallet_key u w' ws) x fx' kx,
        c v x fx,
        g,
      )
      | inr differ ↦
          let ne : k ≢ v = ground arith in
          let g' = sym (find-replace_ne wallet_key k v x' (replace wallet_key u w' ws) ne kx) ∙ g in
          elim (Bool-cases (k == u)) [
            | inl same ↦
                ground (
                  arith,
                  ==→eq k u same,
                  find-replace_self wallet_key u w' ws w fw kw,
                  c u w fw,
                  g',
                )
            | inr differ' ↦
                let ne' : k ≢ u = ground arith in
                omega (
                  arith,
                  other k ne' ne,
                  c k y (sym (find-replace_ne wallet_key k u w' ws ne' kw) ∙ g'),
                )
          ]
    ]

-- A wallet of a sound database is in range.
pub Sound-IsInRange :
    (ws : List Wallet) (os : List Order) (n u : ℕ) (w : Wallet)
    → Sound ws os n
    → find wallet_key u ws ≡ some w
    → IsInRange w
Sound-IsInRange ws os n u w s f = omega (
  arith,
  s.usd_fits,
  s.btc_fits,
  sum_by-find-le wallet_key usd_of u ws w f,
  sum_by-find-le wallet_key btc_of u ws w f,
)

pub Valid→ValidBut : (t : Order) (d : Db) → Valid d → ValidBut t t d
Valid→ValidBut t d v = record {
  sound = v.sound;
  usd_backed = λ u w f. omega (arith, v.usd_reserved u w f);
  btc_backed = λ u w f. omega (arith, v.btc_reserved u w f);
}

pub ValidBut→Valid : (t : Order) (d : Db) → ValidBut t t d → Valid d
ValidBut→Valid t d v = record {
  sound = v.sound;
  usd_reserved = λ u w f. omega (arith, v.usd_backed u w f);
  btc_reserved = λ u w f. omega (arith, v.btc_backed u w f);
}

-- A wallet is still found after the write of another or of itself.
pub found-replace :
    (u k : ℕ) (w x v : Wallet) (ws : List Wallet)
    → find wallet_key u ws ≡ some w
    → find wallet_key k ws ≡ some x
    → v.user_id ≡ k
    → (y : Wallet) × (find wallet_key u (replace wallet_key k v ws) ≡ some y)
found-replace u k w x v ws f g e = elim (Bool-cases (u == k)) [
  | inl same ↦ (v, ground (arith, ==→eq u k same, find-replace_self wallet_key k v ws x g e))
  | inr differ ↦ let ne : u ≢ k = ground arith in (w, find-replace_ne wallet_key u k v ws ne e ∙ f)
]

-- One wallet is written, and no money is made.
pub Sound-replace :
    (ws : List Wallet) (os : List Order) (n u : ℕ) (w w' : Wallet)
    → Sound ws os n
    → find wallet_key u ws ≡ some w
    → w'.user_id ≡ u
    → usd_of w' ≤ usd_of w
    → btc_of w' ≤ btc_of w
    → Sound (replace wallet_key u w' ws) os n
Sound-replace ws os n u w w' s f e usd btc = record {
  usd_fits = omega (arith, s.usd_fits, sum_by-replace wallet_key usd_of u w' ws w f);
  btc_fits = omega (arith, s.btc_fits, sum_by-replace wallet_key btc_of u w' ws w f);
  rows_checked = s.rows_checked;
  rows_fit = s.rows_fit;
  owned = λ id o g. let own = s.owned id o g in found-replace o.user_id u own.0 w w' ws own.1 f e;
  distinct = s.distinct;
  fresh = s.fresh;
}

-- Two wallets are written, and no money is made by the two writes together.
pub Sound-replace_two :
    (ws : List Wallet) (os : List Order) (n u v : ℕ) (w w' x x' : Wallet)
    → Sound ws os n
    → v ≢ u
    → find wallet_key u ws ≡ some w
    → find wallet_key v ws ≡ some x
    → w'.user_id ≡ u
    → x'.user_id ≡ v
    → usd_of w' + usd_of x' ≤ usd_of w + usd_of x
    → btc_of w' + btc_of x' ≤ btc_of w + btc_of x
    → Sound (replace wallet_key v x' (replace wallet_key u w' ws)) os n
Sound-replace_two ws os n u v w w' x x' s ne f g e h usd btc =
    let n' : u ≢ v = λ p. ne (sym p) in
    let g' = find-replace_ne wallet_key v u w' ws ne e ∙ g in
    record {
      usd_fits =
          omega (arith, s.usd_fits, sum_by-replace_two wallet_key usd_of u v w' x' ws w x n' f g e);
      btc_fits =
          omega (arith, s.btc_fits, sum_by-replace_two wallet_key btc_of u v w' x' ws w x n' f g e);
      rows_checked = s.rows_checked;
      rows_fit = s.rows_fit;
      owned = λ id o k.
          let own = s.owned id o k in
          let once = found-replace o.user_id u own.0 w w' ws own.1 f e in
          found-replace o.user_id v once.0 x x' (replace wallet_key u w' ws) once.1 g' h;
      distinct = s.distinct;
      fresh = s.fresh;
    }

replace-Apart :
    (k id : ℕ) (o : Order) (os : List Order)
    → o.id ≡ id
    → Apart k os
    → Apart k (replace order_key id o os)
unfolding replace
replace-Apart k id o [] e a = tt
replace-Apart k id o (x ∷ os) e a = ground (arith, replace-Apart k id o os e a.1)

replace-Distinct :
    (id : ℕ) (o : Order) (os : List Order)
    → o.id ≡ id
    → Distinct os
    → Distinct (replace order_key id o os)
unfolding replace
replace-Distinct id o [] e a = tt
replace-Distinct id o (x ∷ os) e a =
    ground (arith, replace-Distinct id o os e a.1, replace-Apart x.id id o os e a.0)

-- The row of an order is written, for the same user.
pub Sound-replace_order :
    (ws : List Wallet) (os : List Order) (n id : ℕ) (o o' : Order)
    → Sound ws os n
    → find order_key id os ≡ some o
    → o'.id ≡ id
    → o'.user_id ≡ o.user_id
    → order_check o' ≡ true
    → o'.original_amount ≡ o.original_amount
    → o'.price ≡ o.price
    → Sound ws (replace order_key id o' os) n
Sound-replace_order ws os n id o o' s f e own ok amount price = record {
  usd_fits = s.usd_fits;
  btc_fits = s.btc_fits;
  rows_checked = λ j x g. elim (Bool-cases (j == id)) [
    | inl same ↦ ground (arith, ==→eq j id same, find-replace_self order_key id o' os o f e)
    | inr differ ↦
        let ne : j ≢ id = ground arith in
        s.rows_checked j x (sym (find-replace_ne order_key j id o' os ne e) ∙ g)
  ];
  rows_fit = λ j x g. elim (Bool-cases (j == id)) [
    | inl same ↦ ground (
      arith,
      ==→eq j id same,
      find-replace_self order_key id o' os o f e,
      s.rows_fit id o f,
      amount,
      price,
    )
    | inr differ ↦
        let ne : j ≢ id = ground arith in
        s.rows_fit j x (sym (find-replace_ne order_key j id o' os ne e) ∙ g)
  ];
  owned = λ j x g. elim (Bool-cases (j == id)) [
    | inl same ↦
        let mine = s.owned id o f in
        let same_row : o' ≡ x =
          ground (arith, ==→eq j id same, find-replace_self order_key id o' os o f e) in
        (mine.0, rw (ap (λ (y : Order). y.user_id) (sym same_row) ∙ own) mine.1)
    | inr differ ↦
        let ne : j ≢ id = ground arith in
        s.owned j x (sym (find-replace_ne order_key j id o' os ne e) ∙ g)
  ];
  distinct = replace-Distinct id o' os e s.distinct;
  fresh = λ j h. elim (Bool-cases (j == id)) [
    | inl same ↦ ground (arith, ==→eq j id same, s.fresh id)
    | inr differ ↦
        let ne : j ≢ id = ground arith in find-replace_ne order_key j id o' os ne e ∙ s.fresh j h
  ];
}
