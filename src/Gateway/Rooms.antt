-- ===== src/Gateway/Rooms.antt =====
-- backend/src/realtime/realtime.gateway.ts: an event of an account reaches its user's sockets and no
-- others.
use exchange_matching.Base.{
  ℕ, ◌==◌, ◌≡◌, ◌∙◌, refl, arith, Bool, true, false, List, [], ◌∷◌, map, Option, none, some,
  if◌then◌else◌, Bool-cases, Option-cases, inl, inr,
}
use exchange_matching.Table.{where_rows}
use exchange_matching.Database.{Event, EventReason, account_changed}
use exchange_matching.Gateway.{
  Socket, is_in_room, extract_token, handle_connection, receives, dispatch_event,
}

dispatch_event-next :
    {Text : Type 0} (event : Event) (s : Socket Text) (sockets : List (Socket Text))
    → dispatch_event event (s ∷ sockets) ≡ (
        if receives event s
        then s.id ∷ dispatch_event event sockets
        else dispatch_event event sockets)
unfolding dispatch_event where_rows
dispatch_event-next event s sockets = elim (Bool-cases (receives event s)) [
  | inl sent ↦ rw sent refl
  | inr other ↦ rw other refl
]

next_client :
    {b c : Bool} {i j : ℕ} {xs ys : List ℕ}
    → b ≡ c
    → i ≡ j
    → xs ≡ ys
    → (if b then i ∷ xs else xs) ≡ (if c then j ∷ ys else ys)
next_client e f g = rw (e, f, g) refl

module _ {Text : Type 0} (trim : Text → Text) (is_empty is_bearer : Text → Bool)
    (without_bearer : Text → Text) (verify : Text → Option ℕ) where
  -- Who a socket's token was issued to, if it is a valid one.
  abbrev pub subject : Socket Text → Option ℕ
  subject s = elim (extract_token trim is_empty is_bearer without_bearer verify s.auth_token) [
    | none ↦ none
    | some token ↦ verify token
  ]

  abbrev pub is_subject : (user_id : ℕ) → Option ℕ → Bool
  is_subject user_id none = false
  is_subject user_id (some sub) = sub == user_id

  -- A socket as it connects: in no room.
  abbrev pub new_socket : (id : ℕ) → Option Text → Socket Text
  new_socket id auth_token = record {
    id = id;
    auth_token = auth_token;
    rooms = [];
    connected = true;
  }

  abbrev pub new_sockets : List (ℕ × Option Text) → List (Socket Text)
  new_sockets [] = []
  new_sockets ((id, token) ∷ clients) = new_socket id token ∷ new_sockets clients

  -- The clients that show a token of the user.
  abbrev pub clients_of : (user_id : ℕ) → List (ℕ × Option Text) → List ℕ
  clients_of user_id [] = []
  clients_of user_id ((id, token) ∷ clients) =
      if is_subject user_id (subject (new_socket id token))
      then id ∷ clients_of user_id clients
      else clients_of user_id clients

  receives-account :
      (reason : EventReason) (order user_id : ℕ) (trades : List ℕ) (id : ℕ) (token : Option Text)
      → receives
          (account_changed reason order trades user_id)
          (handle_connection trim is_empty is_bearer without_bearer verify (new_socket id token))
        ≡ is_subject user_id (subject (new_socket id token))
  unfolding handle_connection is_in_room
  receives-account reason order user_id trades id token =
      elim (Option-cases (extract_token trim is_empty is_bearer without_bearer verify token)) [
        | inl missing ↦ ground (arith, missing)
        | inr (t, e) ↦ elim (Option-cases (verify t)) [
          | inl invalid ↦ ground (arith, e, invalid)
          | inr (sub, valid) ↦ ground (arith, e, valid)
        ]
      ]

  kept_id :
      (id : ℕ) (token : Option Text)
      → (handle_connection trim is_empty is_bearer without_bearer verify (new_socket id token)).id
        ≡ id
  unfolding handle_connection
  kept_id id token =
      elim (Option-cases (extract_token trim is_empty is_bearer without_bearer verify token)) [
        | inl missing ↦ ground (arith, missing)
        | inr (t, e) ↦ elim (Option-cases (verify t)) [
          | inl invalid ↦ ground (arith, e, invalid)
          | inr (sub, valid) ↦ ground (arith, e, valid)
        ]
      ]

  -- For new sockets whose connections have been handled, `dispatch_event` sends an event of
  -- the account of a user exactly to those whose handshake has a token that verifies with
  -- the user as its subject.
  pub dispatch_event-clients_of :
      (reason : EventReason) (order user_id : ℕ) (trades : List ℕ)
      (clients : List (ℕ × Option Text))
      → dispatch_event (account_changed reason order trades user_id) (
          map
            (handle_connection trim is_empty is_bearer without_bearer verify)
            (new_sockets clients))
        ≡ clients_of user_id clients
  unfolding dispatch_event
  dispatch_event-clients_of reason order user_id trades [] = refl
  dispatch_event-clients_of reason order user_id trades ((id, token) ∷ clients) =
      dispatch_event-next (account_changed reason order trades user_id)
        (handle_connection trim is_empty is_bearer without_bearer verify (new_socket id token))
        (map (handle_connection trim is_empty is_bearer without_bearer verify)
          (new_sockets clients))
      ∙ next_client (receives-account reason order user_id trades id token) (kept_id id token)
          (dispatch_event-clients_of reason order user_id trades clients)
