-- ===== src/Orders/Handler.antt =====
-- internal/http/order/handler.go: the HTTP handlers of orders, from what the middleware and the
-- binding of the body give them to the status and the content of the response.
use go_commerce.Base.{ℕ, zero, suc, ◌-◌, ◌^◌, Option, none, some, List, ltb, if◌then◌else◌}
use go_commerce.Base.Int.{ℤ}
use go_commerce.Base.Digits.{digits_value}
use go_commerce.Base.Text.{Text, trim_space}
use go_commerce.Domain.Errors.{
  Error, ErrorCode, error_code, map_err, Result, ok, err, unauthorized, invalid,
}
use go_commerce.Store.Models.{PaymentModel, Db}
use go_commerce.Store.Tx.{Faults}
use go_commerce.Store.Rows.{Env}
use go_commerce.Store.Call.{Call}
use go_commerce.Orders.Create.{CreateItem}
use go_commerce.Orders.Service.{
  Order, Created, new_order, replay, get, list, create, remember_idempotent, cancel_order,
  pay_order, fulfill_order,
}

pub data Response (A : Type 0) : Type 0 where
  success : ℕ → A → Response A
  stored : ℕ → Text → Response A
  failure : ℕ → ErrorCode → Response A

abbrev pub Answer : Type 0 → Type 0
Answer A = Db → Faults → Response A × Db × Faults

module _ {A : Type 0} where
  abbrev pub failing : Error → Response A
  failing e = failure (map_err e) (error_code e)

  abbrev pub response_of : Result A → Response A
  response_of (ok a) = success 200 a
  response_of (err e) = failing e

  abbrev pub answering : Call A → Answer A
  answering m db fs = (response_of (m db fs).0, (m db fs).1, (m db fs).2)

  -- `middleware.UserID`
  abbrev pub authenticated : Option ℕ → (ℕ → Answer A) → Answer A
  authenticated none f db fs = (failing unauthorized, db, fs)
  authenticated (some user) f db fs = f user db fs

  abbrev pub with_id : Option ℕ → (ℕ → Answer A) → Answer A
  with_id none f db fs = (failing invalid, db, fs)
  with_id (some id) f db fs = f id db fs

abbrev pub positive_uint : Option ℕ → Option ℕ
positive_uint none = none
positive_uint (some zero) = none
positive_uint (some (suc n)) = if ltb n (2 ^ 64 - 1) then some (suc n) else none

-- No text at all is an error too; its value here would be 0.
unfoldable pub parse_id : Text → Option ℕ
parse_id raw = positive_uint (digits_value raw 0)

-- The handlers take the user that the middleware found, and a body or parameters.
unfoldable pub list_orders : Option ℕ → ℤ → Answer (List Order)
unfolding list map_err error_code
list_orders user limit = authenticated user λ u. answering (list u limit)

unfoldable pub get_order : Option ℕ → Text → Answer Order
unfolding get parse_id map_err error_code
get_order user raw = authenticated user λ u. with_id (parse_id raw) λ id. answering (get u id)

-- The answer holds the order; the ids of the dropped cache entries are not part of it.
unfoldable pub post_cancel : Env → Option ℕ → Text → Answer (Order × List ℕ)
unfolding cancel_order parse_id map_err error_code
post_cancel env user raw =
    authenticated user λ u. with_id (parse_id raw) λ id. answering (cancel_order env u id)

unfoldable pub post_pay :
    (ℕ → Text) → Env → Option ℕ → Text → Text → Text → Answer (Order × Option PaymentModel)
unfolding pay_order parse_id map_err error_code
post_pay decimal env user raw outcome key =
    authenticated user
      λ u. with_id (parse_id raw) λ id. answering (pay_order decimal env u id outcome key)

unfoldable pub post_fulfill : Env → Text → Answer Order
unfolding fulfill_order parse_id map_err error_code
post_fulfill env raw = with_id (parse_id raw) λ id. answering (fulfill_order env id)

-- `encode` is `json.Marshal` of the envelope of a new order, and `jsonb` what Postgres keeps of it.
module _ (hash : List CreateItem → Text) (jsonb : Text → Option Text) (encode : Order → Text) where
  -- The response is sent whether or not it could be stored.
  abbrev pub remembering :
      Env → ℕ → Text → Text → Text → List CreateItem → Result Created → Answer Order
  remembering env user key method path items (err e) db fs = (failing e, db, fs)
  remembering env user key method path items (ok (replay status body)) db fs =
      (stored status body, db, fs)
  remembering env user key method path items (ok (new_order order)) db fs =
      let saved =
        remember_idempotent hash jsonb env.now user key method path items 201 (encode order) db
          fs in
      (success 201 order, saved.1, saved.2)

  abbrev pub creating : Env → ℕ → Text → Text → Text → List CreateItem → Answer Order
  creating env user key method path items db fs =
      let made = create hash env user items key db fs in
      remembering env user key method path items made.0 made.1 made.2

  abbrev pub bound : Env → ℕ → Text → Text → Text → Option (List CreateItem) → Answer Order
  bound env user key method path none db fs = (failing invalid, db, fs)
  bound env user key method path (some items) db fs = creating env user key method path items db fs

  -- `items` is what `BindJSON` made of the body, `key` the header `Idempotency-Key`.
  unfoldable pub post_order :
      Env → Option ℕ → Text → Text → Text → Option (List CreateItem) → Answer Order
  unfolding create remember_idempotent trim_space map_err error_code
  post_order env user key method path items =
      authenticated user λ u. bound env u (trim_space key) method path items
