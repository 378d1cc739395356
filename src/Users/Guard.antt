-- ===== src/Users/Guard.antt =====
-- backend/src/auth/jwt-auth.guard.ts: the guard of the routes that need a user. The verification of a
-- token is a parameter, which gives the payload or throws.
use exchange_matching.Base.{
  ℕ, ◌≡◌, refl, false, not, List, [], ◌∷◌, ◌++◌, Option, none, some, if◌then◌else◌,
}
use exchange_matching.Text.{Text, is_empty_text, includes, split_at, eq_text, split_at-none}

-- The three reasons of an `UnauthorizedException`.
pub data GuardError : Type 0 where
  missing_header invalid_header invalid_token : GuardError

-- `allowed`: the guard returns true, with the payload as the user of the request.
pub data GuardAnswer (Payload : Type 0) : Type 0 where
  allowed : Payload → GuardAnswer Payload
  denied : GuardError → GuardAnswer Payload

-- The text Bearer.
abbrev pub bearer : Text
bearer = 66 ∷ 101 ∷ 97 ∷ 114 ∷ 101 ∷ 114 ∷ []

abbrev pub space : ℕ
space = 32

-- The second part of a split, if there is one that is not empty.
abbrev token_of : List Text → Option Text
token_of [] = none
token_of ([] ∷ ts) = none
token_of ((c ∷ cs) ∷ ts) = some (c ∷ cs)

module _ {Payload : Type 0} (verify : Text → Option Payload) where
  abbrev check_token : Option Text → GuardAnswer Payload
  check_token none = denied invalid_header
  check_token (some token) = elim (verify token) [
    | none ↦ denied invalid_token
    | some payload ↦ allowed payload
  ]

  abbrev check_header : Text → GuardAnswer Payload
  check_header [] = denied missing_header
  check_header (c ∷ cs) =
      let parts = split_at space (c ∷ cs) in
      if not (eq_text parts.0 bearer) then denied invalid_header else check_token (token_of parts.1)

  unfoldable pub can_activate : (authorization_header : Option Text) → GuardAnswer Payload
  unfolding split_at eq_text
  can_activate none = denied missing_header
  can_activate (some header) = check_header header

  -- A header with a token that verifies is let through as the user of the token.
  pub can_activate-bearer :
      (token : Text) (payload : Payload)
      → is_empty_text token ≡ false
      → includes space token ≡ false
      → verify token ≡ some payload
      → can_activate (some (bearer ++ space ∷ token)) ≡ allowed payload
  unfolding can_activate split_at eq_text
  can_activate-bearer [] payload full plain ok = cc
  can_activate-bearer (c ∷ rest) payload full plain ok =
      rw (split_at-none space (c ∷ rest) plain, ok) refl
