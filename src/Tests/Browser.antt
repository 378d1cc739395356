-- ===== src/Tests/Browser.antt =====
-- What the browser does with texts, at concrete ones.
use exchange_matching.Base.{◌≡◌, refl, false, [], ◌∷◌, Option, none, some, ℕ, arith}
use exchange_matching.Text.{Text, includes}
use exchange_matching.Frontend.Typing.{sanitize_decimal_input}
use exchange_matching.Frontend.Stable.{IsDecimal, with_point, sanitize-IsDecimal}
use exchange_matching.Table.{length}
use exchange_matching.Frontend.Session.{
  Json, IsJson, QueryCache, Browser, Session, provider_login, provider_logout, load_page,
}
use exchange_matching.Frontend.SignedIn.{IsSignedIn, IsSignedOut, login-IsSignedIn}

-- The keystrokes .5x.6
abbrev keystrokes : Text
keystrokes = 46 ∷ 53 ∷ 120 ∷ 46 ∷ 54 ∷ []

-- The text 10.5
abbrev amount : Text
amount = 49 ∷ 48 ∷ 46 ∷ 53 ∷ []

sanitize-IsDecimal_example :
    IsDecimal (sanitize_decimal_input keystrokes) × (sanitize_decimal_input amount ≡ amount)
unfolding length
sanitize-IsDecimal_example = sanitize-IsDecimal keystrokes amount (
    with_point 49 (48 ∷ []) (53 ∷ []) ((omega arith, omega arith), ((omega arith, omega arith), tt))
      ((omega arith, omega arith), tt) (omega arith) refl)

-- The object with a token is its text after a brace.
abbrev braces : Json
braces = record {
  stringify = λ t. 123 ∷ t;
  parse = λ raw. elim raw [ [] ↦ none | c ∷ cs ↦ some (some cs) ];
}

braces-IsJson : IsJson braces
braces-IsJson = record { reads_back = λ t. refl; is_written = λ t. refl }

-- The cache is the number of its entries.
abbrev counted : QueryCache ℕ ℕ ℕ
counted = record { clear = λ c. 0; set_me = λ u c. 1; set_wallet = λ w c. 2 }

abbrev token : Text
token = 97 ∷ 98 ∷ []

abbrev verify : Text → Option ℕ
verify t = some 7

abbrev fresh : Browser ℕ
fresh = record { stored = none; auth_state = none; cache = 0 }

abbrev session : Session ℕ ℕ
session = record { access_token = token; user = 7; wallet = 7 }

plain : includes 32 token ≡ false
unfolding includes
plain = refl

abbrev signed_in : Browser ℕ
signed_in = load_page braces counted 0 (provider_login braces counted session fresh)

login-IsSignedIn_example :
    IsSignedIn braces braces-IsJson counted verify signed_in token 7
    × IsSignedOut braces braces-IsJson counted verify
        (load_page braces counted 0 (provider_logout braces counted signed_in))
login-IsSignedIn_example =
    login-IsSignedIn braces braces-IsJson counted verify 0 fresh session 7 refl plain refl
