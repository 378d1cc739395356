-- ===== src/Gateway.antt =====
-- backend/src/realtime/realtime.gateway.ts: which sockets an event reaches. A socket is taken once its
-- connection has been handled. Texts and the verification of a token, which gives its subject, are
-- parameters; a room is named by its user.
pub mod Rooms
use exchange_matching.Base.{
  ℕ, ◌==◌, ◌||◌, Bool, true, false, List, [], ◌∷◌, map, Option, none, some, if◌then◌else◌,
}
use exchange_matching.Table.{where_rows}
use exchange_matching.Database.{Event, market_changed, account_changed}

-- `auth_token` is the token of the handshake, if it is a text.
pub record Socket (Text : Type 0) : Type 0 where
  pub id : ℕ
  pub auth_token : Option Text
  pub rooms : List ℕ
  pub connected : Bool

unfoldable pub is_in_room : (user_id : ℕ) → List ℕ → Bool
is_in_room user_id [] = false
is_in_room user_id (r ∷ rs) = r == user_id || is_in_room user_id rs

module _ {Text : Type 0} (trim : Text → Text) (is_empty is_bearer : Text → Bool)
    (without_bearer : Text → Text) (verify : Text → Option ℕ) where
  -- `extractToken`
  abbrev pub extract_token : Option Text → Option Text
  extract_token none = none
  extract_token (some token) =
      if is_empty (trim token)
      then none
      else some (if is_bearer (trim token) then without_bearer (trim token) else trim token)

  -- `handleConnection`
  unfoldable pub handle_connection : Socket Text → Socket Text
  handle_connection s = elim (extract_token s.auth_token) [
    | none ↦ record s { connected = false; rooms = [] }
    | some token ↦ elim (verify token) [
      | none ↦ record s { connected = false; rooms = [] }
      | some sub ↦ record s { rooms = sub ∷ s.rooms }
    ]
  ]

abbrev pub receives : {Text : Type 0} → Event → Socket Text → Bool
receives (market_changed reason order trades) s = s.connected
receives (account_changed reason order trades user) s =
    if s.connected then is_in_room user s.rooms else false

-- `dispatchEvent`: the sockets that it sends to.
unfoldable pub dispatch_event : {Text : Type 0} → Event → List (Socket Text) → List ℕ
unfolding where_rows is_in_room
dispatch_event event sockets = map (λ s. s.id) (where_rows (receives event) sockets)
