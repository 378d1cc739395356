-- ===== src/Users.antt =====
-- backend/src/users/users.service.ts, backend/src/users/users.repository.ts and
-- backend/src/auth/auth.service.ts: a user logs in by a name, and the first login creates the user with
-- a wallet. The texts of names, `trim` and the signature of a token are parameters.
pub mod Session
pub mod Guard
pub mod Growth
pub mod Login
use exchange_matching.Base.{
  ℕ, suc, List, [], ◌∷◌, ◌++◌, Option, none, some, Bool, true, false, ◌==◌, if◌then◌else◌,
}
use exchange_matching.Table.{find}
use exchange_matching.Database.{Wallet, wallet_key}

-- The exceptions of these services; `unique_violation` is Prisma's P2002.
pub data AuthError : Type 0 where
  unique_violation wallet_missing unauthorized wallet_not_found : AuthError

pub data Answer (Value : Type 0) : Type 0 where
  fails : AuthError → Answer Value
  gives : Value → Answer Value

-- `buildInitialWalletCreateInput`: 100 BTC and 100000 USD, in units.
abbrev pub initial_btc_balance : ℕ
initial_btc_balance = 10000000000

abbrev pub initial_usd_balance : ℕ
initial_usd_balance = 10000000000000

abbrev pub initial_wallet : (user_id : ℕ) → Wallet
initial_wallet user_id = record {
  user_id = user_id;
  available_btc = initial_btc_balance;
  reserved_btc = 0;
  available_usd = initial_usd_balance;
  reserved_usd = 0;
}

-- The table "users", whose names are unique, and the table "wallets". A name is a number, which is
-- what its text is compared as.
pub record User : Type 0 where
  pub id : ℕ
  pub username : ℕ

pub record Accounts : Type 0 where
  pub users : List User
  pub wallets : List Wallet
  pub next_user : ℕ

abbrev pub user_key : User → ℕ
user_key u = u.id

abbrev pub name_key : User → ℕ
name_key u = u.username

-- `include: { wallet: true }`
abbrev pub with_wallet : List Wallet → Option User → Option (User × Option Wallet)
with_wallet wallets none = none
with_wallet wallets (some u) = some (u, find wallet_key u.id wallets)

-- The repository: `findById`, `findByUsername` and `createWithWallet`.
unfoldable pub find_user_by_id : ℕ → Accounts → Option (User × Option Wallet)
find_user_by_id id d = with_wallet d.wallets (find user_key id d.users)

unfoldable pub find_user_by_name : ℕ → Accounts → Option (User × Option Wallet)
find_user_by_name username d = with_wallet d.wallets (find name_key username d.users)

abbrev pub created_user : (username : ℕ) → Accounts → User
created_user username d = record { id = d.next_user; username = username }

abbrev pub with_user : (username : ℕ) → Accounts → Accounts
with_user username d = record {
  users = d.users ++ created_user username d ∷ [];
  wallets = d.wallets ++ initial_wallet d.next_user ∷ [];
  next_user = suc d.next_user;
}

unfoldable pub create_with_wallet :
    (username : ℕ) → Accounts → Answer (User × Option Wallet) × Accounts
create_with_wallet username d = elim (find name_key username d.users) [
  | some other ↦ (fails unique_violation, d)
  | none ↦
      (gives (created_user username d, some (initial_wallet d.next_user)), with_user username d)
]

-- `ensureWallet`
abbrev pub ensure_wallet : User × Option Wallet → Answer (User × Wallet)
ensure_wallet (u, none) = fails wallet_missing
ensure_wallet (u, some w) = gives (u, w)

abbrev pub ensure_found : Option (User × Option Wallet) → Answer (Option (User × Wallet))
ensure_found none = gives none
ensure_found (some (u, none)) = fails wallet_missing
ensure_found (some (u, some w)) = gives (some (u, w))

-- The service: `findById`, `findByUsername` and `createWithWallet`.
unfoldable pub service_find_by_id : ℕ → Accounts → Answer (Option (User × Wallet))
unfolding find_user_by_id
service_find_by_id id d = ensure_found (find_user_by_id id d)

unfoldable pub service_find_by_username : ℕ → Accounts → Answer (Option (User × Wallet))
unfolding find_user_by_name
service_find_by_username username d = ensure_found (find_user_by_name username d)

abbrev pub ensure_created : Answer (User × Option Wallet) → Answer (User × Wallet)
ensure_created (fails e) = fails e
ensure_created (gives r) = ensure_wallet r

unfoldable pub service_create_with_wallet :
    (username : ℕ) → Accounts → Answer (User × Wallet) × Accounts
unfolding create_with_wallet
service_create_with_wallet username d =
    let made = create_with_wallet username d in (ensure_created made.0, made.1)
