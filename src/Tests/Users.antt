-- ===== src/Tests/Users.antt =====
-- A login at concrete accounts, while another login creates the user.
use exchange_matching.Base.{ℕ, ◌≡◌, refl, some, []}
use exchange_matching.Table.{find}
use exchange_matching.Users.{User, Accounts, create_with_wallet, name_key}
use exchange_matching.Users.Session.{login}
use exchange_matching.Database.{Wallet, wallet_key}
use exchange_matching.Users.Growth.{IsComplete, IsGrowth, create_with_wallet-IsGrowth}
use exchange_matching.Users.Login.{IsLoggedIn, login-IsLoggedIn}

abbrev nobody : Accounts
nobody = record { users = []; wallets = []; next_user = 0 }

no_user :
    (name : ℕ) (u : User)
    → find name_key name nobody.users ≡ some u
    → (w : Wallet) × (find wallet_key u.id nobody.wallets ≡ some w)
unfolding find
no_user name u h = cc

nobody-IsComplete : IsComplete nobody
unfolding find
nobody-IsComplete = record {
  has_wallet = no_user;
  new_user = λ id h. refl;
  new_wallet = λ id h. refl;
  by_id = λ name u h. cc;
}

-- Another login of the name creates the user first.
abbrev raced : Accounts → Accounts
raced d = (create_with_wallet 7 d).1

raced-IsGrowth : (d : Accounts) → IsComplete d → IsGrowth d (raced d)
raced-IsGrowth d c = create_with_wallet-IsGrowth 7 d c

same-IsGrowth : (d : Accounts) → IsComplete d → IsGrowth d d
same-IsGrowth d c = record { complete = c; stays = λ name u h. h }

login-IsLoggedIn_example :
    IsLoggedIn
      (λ units. units)
      (λ sub name. sub)
      (λ name. name)
      7
      (login (λ units. units) (λ sub name. sub) (λ name. name) raced (λ d. d) 7 nobody)
login-IsLoggedIn_example =
    login-IsLoggedIn (λ units. units) (λ sub name. sub) (λ name. name) raced (λ d. d) raced-IsGrowth
      same-IsGrowth 7 nobody nobody-IsComplete
