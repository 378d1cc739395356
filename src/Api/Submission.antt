-- ===== src/Api/Submission.antt =====
-- backend/src/orders/orders.controller.ts and frontend/src/features/orders/components/OrderFormCard.tsx: an
-- order that the form accepts is created, if the user can pay for it.
use exchange_matching.Base.{
  ℕ, pos, ◌≡◌, ◌≤◌, ◌<◌, refl, ◌∙◌, arith, Bool, true, false, ◌==◌, ◌∷◌, ◌++◌, Option, some, ok,
}
use exchange_matching.Text.{Text, is_empty_text, includes, eq_text}
use exchange_matching.Table.{find}
use exchange_matching.Decimal.{DecimalValue, assert_positive_order_cost, decimal_max}
use exchange_matching.Decimal.Laws.{cost, multiply_scaled_eq}
use exchange_matching.Decimal.Input.{IsPositiveInput, parse-IsPositiveInput}
use exchange_matching.Database.{Db, Side, buy, sell, Wallet, wallet_key}
use exchange_matching.Users.Guard.{bearer, space, can_activate-bearer}
use exchange_matching.Wallets.Reservations.{held, available}
use exchange_matching.Orders.{create_order}
use exchange_matching.Orders.Place.{new_order, placed}
use exchange_matching.Orders.Create.{Created, create_order-answer, placed-Created, answer}
use exchange_matching.Ledger.{Valid}
use exchange_matching.Frontend.{accepts_order_form}
use exchange_matching.Frontend.Agreement.{accepts_order_form-IsAcceptedInput}
use exchange_matching.Api.{
  OrderBody, text, create_order_dto, side_text, replied, post_order, parse_input, reply_of,
}

-- What the form sends: the side of the card, and the values of the schema.
abbrev pub order_payload : (trim : Text → Text) → Side → (amount price : Text) → OrderBody
order_payload trim side amount price = record {
  side = text (side_text side);
  amount = text (trim amount);
  price = text (trim price);
  has_others = false;
}

payload-dto :
    (trim : Text → Text) (side : Side) (amount price : Text)
    → create_order_dto (order_payload trim side amount price)
      ≡ some (record { side = side; amount = trim amount; price = trim price })
unfolding create_order_dto eq_text
payload-dto trim buy amount price = refl
payload-dto trim sell amount price = refl

positive_units : (n : ℕ) → IsPositiveInput (pos n) → (0 < n) × (n ≤ decimal_max)
positive_units n h = (ground (arith, h.same, h.positive), ground (arith, h.same, h.fits))

cost_bounds :
    (a p : ℕ)
    → assert_positive_order_cost (pos a) (pos p) ≡ ok (pos (cost a p))
    → (cost a p ≤ decimal_max) × ((cost a p == 0) ≡ false)
unfolding assert_positive_order_cost
cost_bounds a p h =
    (ground (arith, multiply_scaled_eq a p, h), ground (arith, multiply_scaled_eq a p, h))

module _ (trim : Text → Text) (matches_pattern : Text → Bool)
    (new_decimal : Text → Option DecimalValue) (verify : Text → Option ℕ) where
  -- The answer to a request, and the order that it created.
  pub record IsSubmitted (token : Text) (side : Side) (amount price : Text) (a p user_id : ℕ)
      (w : Wallet) (d : Db) : Type 0 where
    pub is_replied :
        post_order verify trim new_decimal
          (some (bearer ++ space ∷ token))
          (order_payload trim side amount price)
          d
        ≡ (replied (new_order user_id side a p d), placed user_id side a p w d)
    pub is_created : Created (new_order user_id side a p d) d (placed user_id side a p w d)

  posted_order :
      (token : Text) (side : Side) (amount price : Text) (user_id : ℕ) (d : Db)
      → is_empty_text token ≡ false
      → includes space token ≡ false
      → verify token ≡ some user_id
      → post_order verify trim new_decimal
          (some (bearer ++ space ∷ token))
          (order_payload trim side amount price)
          d
        ≡ reply_of
            (create_order user_id side
              (parse_input verify trim new_decimal (trim amount))
              (parse_input verify trim new_decimal (trim price))
              d)
            d
  unfolding post_order
  posted_order token side amount price user_id d full plain ok_token =
      rw
        (
          can_activate-bearer verify token user_id full plain ok_token,
          payload-dto trim side amount price,
          post_order,
        )
        refl

  -- The two inputs of an accepted form, as the backend parses them.
  accepted_cost :
      (trim_twice : (text : Text) → trim (trim text) ≡ trim text) (amount price : Text) (a p : ℕ)
      → accepts_order_form trim is_empty_text matches_pattern new_decimal amount price ≡ true
      → parse_input verify trim new_decimal (trim amount) ≡ ok (pos a)
      → parse_input verify trim new_decimal (trim price) ≡ ok (pos p)
      → assert_positive_order_cost (pos a) (pos p) ≡ ok (pos (cost a p))
  accepted_cost trim_twice amount price a p accepted first second =
      let input =
        accepts_order_form-IsAcceptedInput trim is_empty_text matches_pattern new_decimal trim_twice
          amount price accepted in
      let same_amount : input.amount_units ≡ a = ground (arith, input.amount_parsed, first) in
      let same_price : input.price_units ≡ p = ground (arith, input.price_parsed, second) in
      rw⁻¹ (same_amount, same_price) input.cost_accepted

  -- In a valid database with a wallet for a user, with a `trim` that does nothing the second
  -- time, and a token that is not empty, has no space and verifies as that of the user: if
  -- `accepts_order_form` accepts an amount and a price, the sent texts are parsed as units
  -- of the two, and what the order holds is available, then `post_order`, with the token in
  -- its header, replies with the queued order; it stands in the database after it, which is
  -- valid, and no money came or went.
  pub post_order-IsSubmitted :
      (trim_twice : (text : Text) → trim (trim text) ≡ trim text) (token : Text) (side : Side)
      (amount price : Text) (a p user_id : ℕ) (w : Wallet) (d : Db)
      → Valid d
      → find wallet_key user_id d.wallets ≡ some w
      → is_empty_text token ≡ false
      → includes space token ≡ false
      → verify token ≡ some user_id
      → accepts_order_form trim is_empty_text matches_pattern new_decimal amount price ≡ true
      → parse_input verify trim new_decimal (trim amount) ≡ ok (pos a)
      → parse_input verify trim new_decimal (trim price) ≡ ok (pos p)
      → held side a p ≤ available side w
      → IsSubmitted token side amount price a p user_id w d
  post_order-IsSubmitted trim_twice token side amount price a p user_id w d v wallet full plain
        ok_token accepted first second enough =
      let a_fits =
        positive_units a
          (parse-IsPositiveInput trim is_empty_text new_decimal (trim amount) (pos a) first) in
      let p_fits =
        positive_units p
          (parse-IsPositiveInput trim is_empty_text new_decimal (trim price) (pos p) second) in
      let bounds =
        cost_bounds a p (accepted_cost trim_twice amount price a p accepted first second) in
      let answered =
        create_order-answer user_id side a p w d v.sound wallet a_fits.0 a_fits.1 p_fits.0
          p_fits.1 in
      let created : answer user_id side a p w d
          ≡ ok (new_order user_id side a p d, placed user_id side a p w d) =
        ground (arith, bounds, enough) in
      record {
        is_replied =
            posted_order token side amount price user_id d full plain ok_token
            ∙ rw (first, second, answered, created) refl;
        is_created =
            placed-Created user_id side a p w d v wallet a_fits.0 a_fits.1 p_fits.0 p_fits.1
              bounds.0 enough;
      }
