-- ===== src/Api/Requests.antt =====
-- backend/src/orders/orders.controller.ts: whatever requests arrive, what they do to the database are
-- steps of the exchange.
use exchange_matching.Base.{
  ℕ, ℤ, ◌≡◌, refl, arith, inl, inr, List, [], ◌∷◌, Option, Option-cases, Result, Result-cases, ok,
  err, ◌⊎◌, Error,
}
use exchange_matching.Text.{Text}
use exchange_matching.Decimal.{DecimalValue}
use exchange_matching.Decimal.Input.{check_positive_decimal, parse_positive_decimal_input}
use exchange_matching.Database.{Db, Order, Side}
use exchange_matching.Users.Guard.{allowed, denied, can_activate, GuardAnswer, GuardError}
use exchange_matching.Orders.{create_order}
use exchange_matching.Traffic.{create, cancel, serve, commit}
use exchange_matching.Traffic.Running.{Reach, here, next, served}
use exchange_matching.Traffic.Exchange.{Kept, Reach-Kept}
use exchange_matching.Ledger.{Valid}
use exchange_matching.Api.{
  CreateOrderDto, create_order_dto, reply_of, parse_input, post_order, delete_order, HttpRequest,
  posted, deleted, handle, handle_all,
}

pub GuardAnswer-cases :
    {P : Type 0} (a : GuardAnswer P)
    → ((e : GuardError) × (a ≡ denied e)) ⊎ ((p : P) × (a ≡ allowed p))
GuardAnswer-cases (denied e) = inl (e, refl)
GuardAnswer-cases (allowed p) = inr (p, refl)

Reach-trans : {d d' d'' : Db} → Reach d d' → Reach d' d'' → Reach d d''
Reach-trans first here = first
Reach-trans first (next later step) = next (Reach-trans first later) step

reply_of-commit : (r : Result (Order × Db)) (d : Db) → (reply_of r d).1 ≡ commit r d
reply_of-commit (ok r) d = refl
reply_of-commit (err e) d = refl

module _ (verify : Text → Option ℕ) (trim : Text → Text)
    (new_decimal : Text → Option DecimalValue) where
  -- A text that is parsed was read as a value that passed the checks.
  parsed_value :
      (value : Text) (z : ℤ)
      → parse_input verify trim new_decimal value ≡ ok z
      → (v : DecimalValue) × (check_positive_decimal v ≡ ok z)
  unfolding parse_positive_decimal_input
  parsed_value value z h = elim (Option-cases (new_decimal (trim value))) [
    | inl e ↦ ground (arith, h, e)
    | inr (v, e) ↦ (v, ground (arith, h, e))
  ]

  unparsed_amount :
      (user_id : ℕ) (side : Side) (e : Error) (price : Result ℤ) (d : Db)
      → create_order user_id side (err e) price d ≡ err e
  unfolding create_order
  unparsed_amount user_id side e price d = refl

  unparsed_price :
      (user_id : ℕ) (side : Side) (z : ℤ) (e : Error) (d : Db)
      → create_order user_id side (ok z) (err e) d ≡ err e
  unfolding create_order
  unparsed_price user_id side z e d = refl

  created-Reach :
      (user_id : ℕ) (dto : CreateOrderDto) (d : Db)
      → Reach d (
          commit
            (create_order user_id dto.side
              (parse_input verify trim new_decimal dto.amount)
              (parse_input verify trim new_decimal dto.price)
              d)
            d)
  unfolding serve
  created-Reach user_id dto d =
      elim (Result-cases (parse_input verify trim new_decimal dto.amount)) [
        | inl (e, no_amount) ↦
            rw
              (
                no_amount,
                unparsed_amount user_id dto.side e (parse_input verify trim new_decimal dto.price)
                    d,
              )
              here
        | inr (a, amount) ↦ elim (Result-cases (parse_input verify trim new_decimal dto.price)) [
          | inl (e, no_price) ↦ rw (amount, no_price, unparsed_price user_id dto.side a e d) here
          | inr (p, price) ↦
              let v = parsed_value dto.amount a amount in
              let w = parsed_value dto.price p price in
              next here
                (served (create user_id dto.side v.0 w.0) (rw (v.1, w.1, amount, price) refl))
        ]
      ]

  handle-Reach : (r : HttpRequest) (d : Db) → Reach d (handle verify trim new_decimal r d).1
  unfolding handle post_order delete_order serve
  handle-Reach (posted authorization body) d =
      elim (GuardAnswer-cases (can_activate verify authorization)) [
        | inl (e, no_user) ↦ rw (no_user, post_order) here
        | inr (user_id, user) ↦ elim (Option-cases (create_order_dto body)) [
          | inl no_dto ↦ rw (user, no_dto, post_order) here
          | inr (dto, valid_body) ↦
              rw (user, valid_body, post_order, reply_of-commit) (created-Reach user_id dto d)
        ]
      ]
  handle-Reach (deleted authorization order_id) d =
      elim (GuardAnswer-cases (can_activate verify authorization)) [
        | inl (e, no_user) ↦ rw (no_user, delete_order) here
        | inr (user_id, user) ↦
            rw (user, delete_order, reply_of-commit)
              (next here (served (cancel user_id order_id) refl))
      ]

  handle_all-Reach :
      (rs : List HttpRequest) (d : Db) → Reach d (handle_all verify trim new_decimal rs d)
  unfolding handle_all
  handle_all-Reach [] d = here
  handle_all-Reach (r ∷ rs) d =
      Reach-trans (handle-Reach r d) (handle_all-Reach rs (handle verify trim new_decimal r d).1)

  -- For any verification of tokens, `trim` and parser of decimals, from a valid database:
  -- after any requests that post and delete orders, with whatever headers and bodies, the
  -- database is valid and the totals of USD and BTC with fees are as before.
  pub handle_all-Kept :
      (rs : List HttpRequest) (d : Db) → Valid d → Kept d (handle_all verify trim new_decimal rs d)
  handle_all-Kept rs d v = Reach-Kept d v (handle_all-Reach rs d)
