-- ===== src/Users/Login.antt =====
-- backend/src/auth/auth.service.ts, `login`: whoever logs in first, there is one user of the name, and
-- each login returns it.
use exchange_matching.Base.{ℕ, ◌≡◌, refl, arith, none, some, Option-cases, inl, inr}
use exchange_matching.Table.{find}
use exchange_matching.Database.{Wallet, wallet_key}
use exchange_matching.Users.{
  Answer, gives, User, Accounts, name_key, initial_wallet, created_user, with_user,
  create_with_wallet, service_find_by_id, service_find_by_username, service_create_with_wallet,
  find_user_by_name, find_user_by_id,
}
use exchange_matching.Users.Growth.{
  IsComplete, IsGrowth, created_wallet, created_row, with_user-IsComplete,
}
use exchange_matching.Users.Session.{AuthSession, build_session, login, get_me}

module _ {Text : Type 0} (to_fixed : ℕ → Text) (sign : (sub username : ℕ) → Text)
    (trim : ℕ → ℕ) where
  -- The session is that of the user of the name, who has a wallet.
  pub record IsLoggedIn (username : ℕ) (result : Answer (AuthSession to_fixed sign trim) × Accounts)
      : Type 0 where
    pub user : User
    pub wallet : Wallet
    pub returns : result.0 ≡ gives (build_session to_fixed sign trim (user, wallet))
    pub user_row : find name_key (trim username) result.1.users ≡ some user
    pub wallet_row : find wallet_key user.id result.1.wallets ≡ some wallet
    pub complete : IsComplete result.1

  find_service :
      (username : ℕ) (d : Accounts) (u : User)
      → IsComplete d
      → find name_key (trim username) d.users ≡ some u
      → (w : Wallet) × (find wallet_key u.id d.wallets ≡ some w)
        × (service_find_by_username (trim username) d ≡ gives (some (u, w)))
  unfolding service_find_by_username find_user_by_name
  find_service username d u c row =
      let w = c.has_wallet (trim username) u row in (w.0, w.1, ground (arith, row, w.1))

  module _ (meanwhile later : Accounts → Accounts)
      (meanwhile_grows : (d : Accounts) → IsComplete d → IsGrowth d (meanwhile d))
      (later_grows : (d : Accounts) → IsComplete d → IsGrowth d (later d)) where
    login-found :
        (username : ℕ) (d : Accounts) (u : User) (w : Wallet)
        → service_find_by_username (trim username) d ≡ gives (some (u, w))
        → login to_fixed sign trim meanwhile later username d
          ≡ (gives (build_session to_fixed sign trim (u, w)), d)
    unfolding login
    login-found username d u w h = ground (arith, h)

    login-new :
        (username : ℕ) (d : Accounts)
        → find name_key (trim username) d.users ≡ none
        → find name_key (trim username) (meanwhile d).users ≡ none
        → login to_fixed sign trim meanwhile later username d ≡ (
          gives (
              build_session to_fixed sign trim (
                created_user (trim username) (meanwhile d),
                initial_wallet (meanwhile d).next_user,
              )),
          with_user (trim username) (meanwhile d),
        )
    unfolding login service_find_by_username find_user_by_name service_create_with_wallet
        create_with_wallet
    login-new username d h k = ground (arith, h, k)

    login-raced :
        (username : ℕ) (d : Accounts) (other u : User) (w : Wallet)
        → find name_key (trim username) d.users ≡ none
        → find name_key (trim username) (meanwhile d).users ≡ some other
        → service_find_by_username (trim username) (later (meanwhile d)) ≡ gives (some (u, w))
        → login to_fixed sign trim meanwhile later username d
          ≡ (gives (build_session to_fixed sign trim (u, w)), later (meanwhile d))
    unfolding login service_find_by_username find_user_by_name service_create_with_wallet
        create_with_wallet
    login-raced username d other u w h k l = ground (arith, h, k, l)

    -- For complete accounts, where other transactions only add to them during the login,
    -- `login` returns the session of a user and a wallet: the user is found under the
    -- trimmed name and the wallet under the user in the accounts after the login, which
    -- are complete.
    pub login-IsLoggedIn :
        (username : ℕ) (d : Accounts)
        → IsComplete d
        → IsLoggedIn username (login to_fixed sign trim meanwhile later username d)
    login-IsLoggedIn username d c =
        let mid = meanwhile_grows d c in
        elim (Option-cases (find name_key (trim username) d.users)) [
          | inr (u, row) ↦
              let known = find_service username d u c row in
              rw (login-found username d u known.0 known.2) (record {
                user = u;
                wallet = known.0;
                returns = refl;
                user_row = row;
                wallet_row = known.1;
                complete = c;
              })
          | inl new ↦ elim (Option-cases (find name_key (trim username) (meanwhile d).users)) [
            | inl free ↦ rw (login-new username d new free) (record {
              user = created_user (trim username) (meanwhile d);
              wallet = initial_wallet (meanwhile d).next_user;
              returns = refl;
              user_row = created_row (meanwhile d) (trim username) mid.complete free;
              wallet_row = created_wallet (meanwhile d) (trim username) mid.complete free;
              complete = with_user-IsComplete (meanwhile d) (trim username) mid.complete free;
            })
            | inr (u, row) ↦
                let end = later_grows (meanwhile d) mid.complete in
                let last = end.stays (trim username) u row in
                let known = find_service username (later (meanwhile d)) u end.complete last in
                rw (login-raced username d u u known.0 new row known.2) (record {
                  user = u;
                  wallet = known.0;
                  returns = refl;
                  user_row = last;
                  wallet_row = known.1;
                  complete = end.complete;
                })
          ]
        ]

    -- For complete accounts, where other transactions only add to them during the login,
    -- `login` returns the session of a user, and `get_me` with the id of the user on the
    -- accounts after the login returns the user.
    pub get_me-login :
        (username : ℕ) (d : Accounts)
        → IsComplete d
        → (user : User) × (wallet : Wallet) × ((login to_fixed sign trim meanwhile later username
              d).0
            ≡ gives (build_session to_fixed sign trim (user, wallet)))
          × (get_me to_fixed sign trim user.id
                (login to_fixed sign trim meanwhile later username d).1
              ≡ gives user)
    unfolding get_me service_find_by_id find_user_by_id
    get_me-login username d c =
        let done = login-IsLoggedIn username d c in
        let row = done.complete.by_id (trim username) done.user done.user_row in
        (done.user, done.wallet, done.returns, ground (arith, row, done.wallet_row))
