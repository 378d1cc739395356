-- ===== src/Users/Session.antt =====
-- backend/src/auth/auth.service.ts: a login returns the one user of the name, also when another login
-- creates that user in between.
use exchange_matching.Base.{ℕ, none, some, Bool, true, false, if◌then◌else◌}
use exchange_matching.Table.{find}
use exchange_matching.Database.{Wallet, wallet_key}
use exchange_matching.Users.{
  AuthError, unique_violation, unauthorized, wallet_not_found, Answer, fails, gives, User, Accounts,
  service_find_by_id, service_find_by_username, service_create_with_wallet,
}

module _ {Text : Type 0} (to_fixed : ℕ → Text) (sign : (sub username : ℕ) → Text)
    (trim : ℕ → ℕ) where
  pub record WalletSummary : Type 0 where
    pub available_btc : Text
    pub reserved_btc : Text
    pub available_usd : Text
    pub reserved_usd : Text

  -- `toWalletSummary`
  abbrev pub to_wallet_summary : Wallet → WalletSummary
  to_wallet_summary w = record {
    available_btc = to_fixed w.available_btc;
    reserved_btc = to_fixed w.reserved_btc;
    available_usd = to_fixed w.available_usd;
    reserved_usd = to_fixed w.reserved_usd;
  }

  -- The user of a session is its `toUserProfile`.
  pub record AuthSession : Type 0 where
    pub access_token : Text
    pub user : User
    pub wallet : WalletSummary

  -- `buildSession`
  abbrev pub build_session : User × Wallet → AuthSession
  build_session (u, w) = record {
    access_token = sign u.id u.username;
    user = u;
    wallet = to_wallet_summary w;
  }

  abbrev pub is_unique_violation : AuthError → Bool
  is_unique_violation unique_violation = true
  is_unique_violation _ = false

  -- The `catch` of `login`; `d` is what the database is then.
  abbrev pub find_other : (username : ℕ) → AuthError → Accounts → Answer AuthSession
  find_other username error d =
      if is_unique_violation error
      then elim (service_find_by_username username d) [
        | fails e ↦ fails e
        | gives none ↦ fails error
        | gives (some user) ↦ gives (build_session user)
      ]
      else fails error

  -- `login`. Others commit between its statements: `meanwhile` before the user is created, `later`
  -- before the user is looked for again.
  unfoldable pub login :
      (meanwhile later : Accounts → Accounts) (username : ℕ)
      → Accounts
      → Answer AuthSession × Accounts
  unfolding service_find_by_username service_create_with_wallet
  login meanwhile later username d = elim (service_find_by_username (trim username) d) [
    | fails e ↦ (fails e, d)
    | gives (some user) ↦ (gives (build_session user), d)
    | gives none ↦
        let made = service_create_with_wallet (trim username) (meanwhile d) in
        elim made.0 [
          | gives user ↦ (gives (build_session user), made.1)
          | fails e ↦ (find_other (trim username) e (later made.1), later made.1)
        ]
  ]

  -- `getMe`
  unfoldable pub get_me : (user_id : ℕ) → Accounts → Answer User
  unfolding service_find_by_id
  get_me user_id d = elim (service_find_by_id user_id d) [
    | fails e ↦ fails e
    | gives none ↦ fails unauthorized
    | gives (some r) ↦ gives r.0
  ]

  -- `getWallet`
  unfoldable pub get_wallet : (user_id : ℕ) → Accounts → Answer WalletSummary
  get_wallet user_id d = elim (find wallet_key user_id d.wallets) [
    | none ↦ fails wallet_not_found
    | some w ↦ gives (to_wallet_summary w)
  ]
