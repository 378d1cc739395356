-- ===== src/Api.antt =====
-- backend/src/orders/orders.controller.ts and backend/src/orders/dto/create-order.dto.ts, behind the guard
-- of backend/src/auth/jwt-auth.guard.ts: the requests that create and cancel orders. The parser of
-- decimals and `trim` are parameters; a token verifies as the id of its user.
pub mod Requests
pub mod Submission
use exchange_matching.Base.{
  ℕ, ℤ, Bool, true, false, List, [], ◌∷◌, Option, none, some, Result, ok, err, Error, if◌then◌else◌,
}
use exchange_matching.Text.{Text, is_empty_text, eq_text}
use exchange_matching.Decimal.{DecimalValue}
use exchange_matching.Decimal.Input.{parse_positive_decimal_input}
use exchange_matching.Database.{Db, Order, Side, buy, sell}
use exchange_matching.Users.Guard.{GuardError, allowed, denied, can_activate}
use exchange_matching.Orders.{create_order, cancel_order}

-- A property of the body, as JSON has it.
pub data BodyValue : Type 0 where
  text : Text → BodyValue
  no_text : BodyValue

-- The body of a request for an order; `has_others` says that it has other properties.
pub record OrderBody : Type 0 where
  pub side : BodyValue
  pub amount : BodyValue
  pub price : BodyValue
  pub has_others : Bool

pub record CreateOrderDto : Type 0 where
  pub side : Side
  pub amount : Text
  pub price : Text

-- The texts BUY and SELL.
abbrev pub side_text : Side → Text
side_text buy = 66 ∷ 85 ∷ 89 ∷ []
side_text sell = 83 ∷ 69 ∷ 76 ∷ 76 ∷ []

-- `@IsEnum(OrderSide)`
abbrev pub side_of : Text → Option Side
side_of t =
    if eq_text t (side_text buy)
    then some buy
    else if eq_text t (side_text sell)
    then some sell
    else none

abbrev dto_of : Option Side → (amount price : BodyValue) → Option CreateOrderDto
dto_of (some side) (text amount) (text price) =
    some (record { side = side; amount = amount; price = price })
dto_of none amount price = none
dto_of (some side) no_text price = none
dto_of (some side) (text amount) no_text = none

abbrev side_value : BodyValue → Option Side
side_value no_text = none
side_value (text t) = side_of t

-- What the pipe makes of a body: none if it answers 400.
unfoldable pub create_order_dto : OrderBody → Option CreateOrderDto
unfolding eq_text
create_order_dto body =
    if body.has_others then none else dto_of (side_value body.side) body.amount body.price

-- How a request is answered.
pub data Reply : Type 0 where
  unauthorized : GuardError → Reply
  bad_body : Reply
  thrown : Error → Reply
  replied : Order → Reply

-- The transaction of a service commits or leaves nothing.
abbrev pub reply_of : Result (Order × Db) → Db → Reply × Db
reply_of (ok r) d = (replied r.0, r.1)
reply_of (err e) d = (thrown e, d)

-- The requests that change the database.
pub data HttpRequest : Type 0 where
  posted : (authorization : Option Text) → OrderBody → HttpRequest
  deleted : (authorization : Option Text) (order_id : ℕ) → HttpRequest

module _ (verify : Text → Option ℕ) (trim : Text → Text)
    (new_decimal : Text → Option DecimalValue) where
  abbrev pub parse_input : Text → Result ℤ
  parse_input value = parse_positive_decimal_input trim is_empty_text new_decimal value

  -- `createOrder`
  unfoldable pub post_order : (authorization : Option Text) → OrderBody → Db → Reply × Db
  unfolding create_order_dto
  post_order authorization body d = elim (can_activate verify authorization) [
    | denied e ↦ (unauthorized e, d)
    | allowed user_id ↦ elim (create_order_dto body) [
      | none ↦ (bad_body, d)
      | some dto ↦
          reply_of
            (create_order user_id dto.side (parse_input dto.amount) (parse_input dto.price) d) d
    ]
  ]

  -- `cancelOrder`
  unfoldable pub delete_order : (authorization : Option Text) (order_id : ℕ) → Db → Reply × Db
  delete_order authorization order_id d = elim (can_activate verify authorization) [
    | denied e ↦ (unauthorized e, d)
    | allowed user_id ↦ reply_of (cancel_order user_id order_id d) d
  ]

  unfoldable pub handle : HttpRequest → Db → Reply × Db
  unfolding post_order delete_order
  handle (posted authorization body) d = post_order authorization body d
  handle (deleted authorization order_id) d = delete_order authorization order_id d

  -- One request after the other.
  unfoldable pub handle_all : List HttpRequest → Db → Db
  unfolding handle
  handle_all [] d = d
  handle_all (r ∷ rs) d = handle_all rs (handle r d).1
