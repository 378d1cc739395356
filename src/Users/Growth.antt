-- ===== src/Users/Growth.antt =====
-- backend/src/users/users.repository.ts: the creation of a user keeps the accounts complete.
use exchange_matching.Base.{
  ℕ, ◌≡◌, ◌≤◌, refl, sym, ap, ◌∙◌, arith, List, [], ◌∷◌, ◌++◌, none, some, true, false, ◌==◌,
  Option-cases, Bool-cases, inl, inr, ==→eq,
}
use exchange_matching.Table.{find}
use exchange_matching.Database.{Wallet, wallet_key}
use exchange_matching.Users.{
  User, Accounts, user_key, name_key, initial_wallet, created_user, with_user, create_with_wallet,
}

-- Each user has a wallet and is found under the id, and no row has a number that is still to come.
pub record IsComplete (d : Accounts) : Type 0 where
  pub has_wallet :
      (name : ℕ) (u : User)
      → find name_key name d.users ≡ some u
      → (w : Wallet) × (find wallet_key u.id d.wallets ≡ some w)
  pub new_user : (id : ℕ) → d.next_user ≤ id → find user_key id d.users ≡ none
  pub new_wallet : (id : ℕ) → d.next_user ≤ id → find wallet_key id d.wallets ≡ none
  pub by_id :
      (name : ℕ) (u : User)
      → find name_key name d.users ≡ some u
      → find user_key u.id d.users ≡ some u

-- What other transactions do to the accounts: the users stay.
pub record IsGrowth (d d' : Accounts) : Type 0 where
  pub complete : IsComplete d'
  pub stays :
      (name : ℕ) (u : User)
      → find name_key name d.users ≡ some u
      → find name_key name d'.users ≡ some u

module _ {A : Type 0} (key : A → ℕ) where
  find-append :
      (k : ℕ) (xs : List A) (x y : A) → find key k xs ≡ some x → find key k (xs ++ y ∷ []) ≡ some x
  unfolding find
  find-append k [] x y h = cc
  find-append k (z ∷ xs) x y h = ground (arith, find-append k xs x y)

  find-append_last :
      (k : ℕ) (xs : List A) (y : A)
      → find key k xs ≡ none
      → key y ≡ k
      → find key k (xs ++ y ∷ []) ≡ some y
  unfolding find
  find-append_last k [] y h e = ground arith
  find-append_last k (z ∷ xs) y h e = ground (arith, find-append_last k xs y)

  find-append_ne :
      (k : ℕ) (xs : List A) (y : A)
      → (key y == k) ≡ false
      → find key k (xs ++ y ∷ []) ≡ find key k xs
  unfolding find
  find-append_ne k [] y n = ground (arith, n)
  find-append_ne k (z ∷ xs) y n = ground (arith, find-append_ne k xs y)

module _ (d : Accounts) (name : ℕ) (c : IsComplete d)
    (new : find name_key name d.users ≡ none) where
  pub created_wallet :
      find wallet_key d.next_user (with_user name d).wallets ≡ some (initial_wallet d.next_user)
  created_wallet =
      find-append_last wallet_key d.next_user d.wallets (initial_wallet d.next_user)
        (c.new_wallet d.next_user (omega arith)) refl

  pub created_row : find name_key name (with_user name d).users ≡ some (created_user name d)
  created_row = find-append_last name_key name d.users (created_user name d) new refl

  created_only :
      (other : ℕ) (u : User)
      → find name_key other (with_user name d).users ≡ some u
      → (name == other) ≡ true
      → created_user name d ≡ u
  created_only other u row same =
      let e : name ≡ other = ==→eq name other same in
      let known : find name_key other (with_user name d).users ≡ some (created_user name d) =
        ap (λ n. find name_key n (with_user name d).users) (sym e) ∙ created_row in
      ground (arith, known, row)

  with_user-has_wallet :
      (other : ℕ) (u : User)
      → find name_key other (with_user name d).users ≡ some u
      → (w : Wallet) × (find wallet_key u.id (with_user name d).wallets ≡ some w)
  with_user-has_wallet other u row = elim (Bool-cases (name == other)) [
    | inl same ↦ (
      initial_wallet d.next_user,
      ap (λ (v : User). find wallet_key v.id (with_user name d).wallets)
            (sym (created_only other u row same))
          ∙ created_wallet,
    )
    | inr differs ↦
        let old =
          c.has_wallet other u
            (sym (find-append_ne name_key other d.users (created_user name d) differs) ∙ row) in
        (old.0, find-append wallet_key u.id d.wallets old.0 (initial_wallet d.next_user) old.1)
  ]

  with_user-by_id :
      (other : ℕ) (u : User)
      → find name_key other (with_user name d).users ≡ some u
      → find user_key u.id (with_user name d).users ≡ some u
  with_user-by_id other u row = elim (Bool-cases (name == other)) [
    | inl same ↦ rw⁻¹ (created_only other u row same) (
        find-append_last user_key d.next_user d.users (created_user name d)
          (c.new_user d.next_user (omega arith)) refl)
    | inr differs ↦ find-append user_key u.id d.users u (created_user name d) (
        c.by_id other u
          (sym (find-append_ne name_key other d.users (created_user name d) differs) ∙ row))
  ]

  pub with_user-IsComplete : IsComplete (with_user name d)
  with_user-IsComplete = record {
    has_wallet = with_user-has_wallet;
    new_user = λ id h.
        find-append_ne user_key id d.users (created_user name d) (ground (arith, h))
        ∙ c.new_user id (omega (arith, h));
    new_wallet = λ id h.
        find-append_ne wallet_key id d.wallets (initial_wallet d.next_user) (ground (arith, h))
        ∙ c.new_wallet id (omega (arith, h));
    by_id = with_user-by_id;
  }

-- The creation of a user is such a transaction.
pub create_with_wallet-IsGrowth :
    (name : ℕ) (d : Accounts) → IsComplete d → IsGrowth d (create_with_wallet name d).1
unfolding create_with_wallet
create_with_wallet-IsGrowth name d c = elim (Option-cases (find name_key name d.users)) [
  | inr (u, row) ↦ rw (row, create_with_wallet) (record { complete = c; stays = λ other v h. h })
  | inl new ↦
      rw (new, create_with_wallet)
        (record {
          complete = with_user-IsComplete d name c new;
          stays = λ other v h. find-append name_key other d.users v (created_user name d) h;
        })
]
