-- ===== src/Frontend/SignedIn.antt =====
-- frontend/src/services/session-storage.ts, frontend/src/services/http.ts and
-- backend/src/auth/jwt-auth.guard.ts: a login outlives the page, and its requests pass the guard.
use exchange_matching.Base.{◌≡◌, refl, false, [], ◌∷◌, ◌++◌, Option, none, some}
use exchange_matching.Text.{Text, includes, is_empty_text}
use exchange_matching.Users.Guard.{
  bearer, space, allowed, denied, missing_header, can_activate, can_activate-bearer,
}
use exchange_matching.Frontend.Session.{
  Json, IsJson, QueryCache, Browser, Session, get_stored_auth_state, authorization_header,
  bearer_header, is_authenticated, provider_login, provider_logout, load_page,
}

module _ {Cache User Wallet Payload : Type 0} (json : Json) (law : IsJson json)
    (queries : QueryCache Cache User Wallet) (verify : Text → Option Payload) where
  -- What the browser shows, and how the backend answers its requests.
  pub record IsSignedIn (b : Browser Cache) (token : Text) (payload : Payload) : Type 0 where
    pub has_token : b.auth_state ≡ some token
    pub passes_guard : can_activate verify (authorization_header json b.stored) ≡ allowed payload

  pub record IsSignedOut (b : Browser Cache) : Type 0 where
    pub shows_login : is_authenticated json b.auth_state ≡ false
    pub stopped : can_activate verify (authorization_header json b.stored) ≡ denied missing_header

  stored_token :
      (t : Text)
      → get_stored_auth_state json (some (json.stringify t)) ≡ (some t, some (json.stringify t))
  unfolding get_stored_auth_state
  stored_token t = rw (law.is_written t, law.reads_back t) refl

  header_of :
      (t : Text)
      → is_empty_text t ≡ false
      → bearer_header json (some t) ≡ some (bearer ++ space ∷ t)
  header_of [] full = cc
  header_of (c ∷ cs) full = refl

  no_header : can_activate verify none ≡ denied missing_header
  unfolding can_activate
  no_header = refl

  -- For JSON that is read back as it was written, and a session whose token is not empty,
  -- has no space and verifies: after the login and a reload of the page the browser has the
  -- token, and `can_activate` lets its requests through with the payload of the token; after
  -- a logout and another reload it shows no user, and `can_activate` denies its requests for
  -- want of a header.
  pub login-IsSignedIn :
      (new_cache : Cache) (b : Browser Cache) (session : Session User Wallet) (payload : Payload)
      → is_empty_text session.access_token ≡ false
      → includes space session.access_token ≡ false
      → verify session.access_token ≡ some payload
      → (let shown = load_page json queries new_cache (provider_login json queries session b) in
          IsSignedIn shown session.access_token payload
          × IsSignedOut (load_page json queries new_cache (provider_logout json queries shown)))
  unfolding load_page provider_login provider_logout authorization_header get_stored_auth_state
  login-IsSignedIn new_cache b session payload full plain ok =
      let token = session.access_token in
      let again = stored_token token in
      let header = header_of token full in
      (
        record {
          has_token = rw again refl;
          passes_guard =
              rw (again, again, header) (can_activate-bearer verify token payload full plain ok);
        },
        record { shows_login = refl; stopped = no_header },
      )
