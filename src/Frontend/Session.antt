-- ===== src/Frontend/Session.antt =====
-- frontend/src/services/session-storage.ts, frontend/src/services/http.ts and
-- frontend/src/features/auth/context/AuthProvider.tsx: the session that the browser keeps. JSON and the
-- cache of queries are parameters.
use exchange_matching.Base.{◌≡◌, Bool, false, not, [], ◌∷◌, ◌++◌, Option, none, some, if◌then◌else◌}
use exchange_matching.Text.{Text, is_empty_text}
use exchange_matching.Users.Guard.{bearer, space}

-- `stringify` writes the object with an access token. `parse` reads a text: none if it throws, else the
-- access token, if it is a string.
pub record Json : Type 0 where
  pub stringify : (access_token : Text) → Text
  pub parse : Text → Option (Option Text)

-- What is written is read back, and is not the empty text.
pub record IsJson (json : Json) : Type 0 where
  pub reads_back : (t : Text) → json.parse (json.stringify t) ≡ some (some t)
  pub is_written : (t : Text) → is_empty_text (json.stringify t) ≡ false

-- The cache of queries: `clear`, and `setQueryData` for the two keys.
pub record QueryCache (Cache User Wallet : Type 0) : Type 0 where
  pub clear : Cache → Cache
  pub set_me : User → Cache → Cache
  pub set_wallet : Wallet → Cache → Cache

-- The item of the local storage, the state of the provider and the cache.
pub record Browser (Cache : Type 0) : Type 0 where
  pub stored : Option Text
  pub auth_state : Option Text
  pub cache : Cache

pub record Session (User Wallet : Type 0) : Type 0 where
  pub access_token : Text
  pub user : User
  pub wallet : Wallet

module _ (json : Json) where
  -- What `getStoredAuthState` makes of the text: the state, and the item that is left.
  abbrev read_session : (raw : Text) → Option (Option Text) → Option Text × Option Text
  read_session raw none = (none, none)
  read_session raw (some none) = (none, none)
  read_session raw (some (some token)) = (some token, some raw)

  unfoldable pub get_stored_auth_state : (stored : Option Text) → Option Text × Option Text
  get_stored_auth_state none = (none, none)
  get_stored_auth_state (some raw) =
      if is_empty_text raw then (none, some raw) else read_session raw (json.parse raw)

  -- The interceptor of the requests: their header, and the item that is left.
  abbrev pub bearer_header : Option Text → Option Text
  bearer_header none = none
  bearer_header (some []) = none
  bearer_header (some (c ∷ cs)) = some (bearer ++ space ∷ c ∷ cs)

  unfoldable pub authorization_header : (stored : Option Text) → Option Text
  unfolding get_stored_auth_state
  authorization_header stored = bearer_header (get_stored_auth_state stored).0

  -- `isAuthenticated`
  abbrev pub is_authenticated : (auth_state : Option Text) → Bool
  is_authenticated none = false
  is_authenticated (some token) = not (is_empty_text token)

  module _ {Cache User Wallet : Type 0} (queries : QueryCache Cache User Wallet) where
    -- `login`
    unfoldable pub provider_login : Session User Wallet → Browser Cache → Browser Cache
    provider_login session b = record {
      stored = some (json.stringify session.access_token);
      auth_state = some session.access_token;
      cache =
          queries.set_wallet session.wallet (queries.set_me session.user (queries.clear b.cache));
    }

    -- `logout`
    unfoldable pub provider_logout : Browser Cache → Browser Cache
    provider_logout b = record { stored = none; auth_state = none; cache = queries.clear b.cache }

    -- The page is loaded again: the provider starts from the storage, with a new cache.
    unfoldable pub load_page : (new_cache : Cache) → Browser Cache → Browser Cache
    unfolding get_stored_auth_state
    load_page new_cache b =
        let read = get_stored_auth_state b.stored in
        record { stored = read.1; auth_state = read.0; cache = new_cache }
