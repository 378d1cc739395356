-- ===== src/Tests/Gateway.antt =====
-- Three clients: one of user 10, one of user 20, and one without a token.
use exchange_matching.Base.{ℕ, ◌≡◌, false, List, [], ◌∷◌, map, Option, some, none}
use exchange_matching.Database.{order_created, account_changed}
use exchange_matching.Gateway.{handle_connection, dispatch_event}
use exchange_matching.Gateway.Rooms.{new_sockets, clients_of, dispatch_event-clients_of}

abbrev clients : List (ℕ × Option ℕ)
clients = (1, some 10) ∷ (2, some 20) ∷ (3, none) ∷ []

dispatch_event-clients_of_example :
    dispatch_event (account_changed order_created 5 [] 20) (
      map
        (handle_connection (λ (t : ℕ). t) (λ t. false) (λ t. false) (λ t. t) (λ t. some t))
        (new_sockets (λ (t : ℕ). t) (λ t. false) (λ t. false) (λ t. t) (λ t. some t) clients))
    ≡ clients_of (λ (t : ℕ). t) (λ t. false) (λ t. false) (λ t. t) (λ t. some t) 20 clients
dispatch_event-clients_of_example =
    dispatch_event-clients_of (λ (t : ℕ). t) (λ t. false) (λ t. false) (λ t. t) (λ t. some t)
      order_created 5 20 [] clients
