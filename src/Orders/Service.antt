-- ===== src/Orders/Service.antt =====
-- internal/http/order/service.go: the service of orders over its repository. `hash` stands for the
-- hex digest of the encoded items (`encoding/json`, `crypto/sha256`) and `decimal` for `%d` of
-- `fmt`. A cache that is called is Redis; its errors are logged and dropped, so that what a call
-- of it does to the service is only that it is made: the service returns the ids it names.
use go_commerce.Base.{
  ℕ, suc, ◌-◌, ◌*◌, ◌&&◌, ◌||◌, not, Option, none, some, List, [], ◌∷◌, ◌++◌, if◌then◌else◌, map,
}
use go_commerce.Base.Int.{ℤ, pos, pos_part, leb_ℤ}
use go_commerce.Base.Text.{Text, codes, text_eq, is_empty, trim_space, to_lower}
use go_commerce.Domain.Errors.{invalid, conflict}
use go_commerce.Domain.Order.{OrderStatus}
use go_commerce.Store.Models.{OrderModel, OrderItemModel, PaymentModel, IdempotencyModel, Currency}
use go_commerce.Store.Tx.{transaction}
use go_commerce.Store.Rows.{Env}
use go_commerce.Store.Call.{Call, reading, returns, refuses, call, and_then}
use go_commerce.Orders.Create.{CreateItem, create_order}
use go_commerce.Orders.Change.{
  PayOutcome, success, fail, timeout, cancel, cancel_system, pay, fulfill,
}
use go_commerce.Orders.Queries.{
  find_by_id, find_by_id_any, list_by_user, list_expired_pending_ids, find_idempotency,
  save_idempotency_response,
}

pub record OrderItem : Type 0 where
  pub product_id : ℕ
  pub qty : ℕ
  pub unit_price : ℕ

-- `domain.Order`, with its times as they are stored.
pub record Order : Type 0 where
  pub id : ℕ
  pub user_id : ℕ
  pub status : OrderStatus
  pub total : ℕ
  pub currency : Currency
  pub version : ℕ
  pub items : List OrderItem
  pub created_at : ℕ
  pub updated_at : ℕ

abbrev pub to_item : OrderItemModel → OrderItem
to_item it = record { product_id = it.product_id; qty = it.qty; unit_price = it.unit_price }

unfoldable pub to_domain : ℕ → OrderModel → List OrderItemModel → Order
to_domain id m items = record {
  id = id;
  user_id = m.user_id;
  status = m.status;
  total = m.total;
  currency = m.currency;
  version = m.version;
  items = map to_item items;
  created_at = m.created_at;
  updated_at = m.updated_at;
}

abbrev pub found_order : ℕ → OrderModel × List OrderItemModel → Order
found_order id row = to_domain id row.0 row.1

unfoldable pub create_item_product_ids : List CreateItem → List ℕ
create_item_product_ids items = map (λ it. it.product_id) items

unfoldable pub item_product_ids : List OrderItemModel → List ℕ
item_product_ids items = map (λ it. it.product_id) items

unfoldable pub get : ℕ → ℕ → Call Order
unfolding reading find_by_id to_domain
get user id = and_then (reading (find_by_id user id)) λ row. returns (found_order id row)

abbrev pub without_items : ℕ × OrderModel → Order
without_items row = to_domain row.0 row.1 []

unfoldable pub list : ℕ → ℤ → Call (List Order)
unfolding reading list_by_user to_domain
list user limit =
    and_then (reading (list_by_user user limit)) λ rows. returns (map without_items rows)

-- What `Create` answers: the new order, or the response stored for the key.
pub data Created : Type 0 where
  new_order : Order → Created
  replay : ℕ → Text → Created

-- The stored row that answers for the request: it has a status and a body.
abbrev pub stored_response : Option IdempotencyModel → Option (ℕ × Text × Text)
stored_response none = none
stored_response (some row) = elim row.response_status [
  | none ↦ none
  | some status ↦
      if is_empty row.response_body
      then none
      else some (status, row.response_body, row.request_hash)
]

module _ (hash : List CreateItem → Text) where
  abbrev pub replayed : List CreateItem → ℕ × Text × Text → Call Created
  replayed items r =
      if not (is_empty r.2) && not (text_eq r.2 (hash items))
      then refuses conflict
      else returns (replay r.0 r.1)

  unfoldable pub place : Env → ℕ → List CreateItem → Call Created
  unfolding transaction create_order get
  place env user items =
      and_then (transaction (create_order env user items))
        λ made. and_then (get user made.0) λ order. returns (new_order order)

  abbrev pub place_unless_stored :
      Env → ℕ → List CreateItem → Option (ℕ × Text × Text) → Call Created
  place_unless_stored env user items (some r) = replayed items r
  place_unless_stored env user items none = place env user items

  -- `Create`, with the key trimmed by its first statement.
  unfoldable pub create_with_key : Env → ℕ → List CreateItem → Text → Call Created
  unfolding reading find_idempotency place
  create_with_key env user items key = if is_empty key then refuses invalid else elim items [
    | [] ↦ refuses invalid
    | it ∷ its ↦
        and_then (reading (find_idempotency user key))
          λ row. place_unless_stored env user (it ∷ its) (stored_response row)
  ]

  unfoldable pub create : Env → ℕ → List CreateItem → Text → Call Created
  unfolding create_with_key trim_space
  create env user items key = create_with_key env user items (trim_space key)

  unfoldable pub remember_idempotent :
      (Text → Option Text)
      → ℕ
      → ℕ
      → Text
      → Text
      → Text
      → List CreateItem
      → ℕ
      → Text
      → Call (Unit {0})
  unfolding transaction save_idempotency_response
  remember_idempotent jsonb now user key method path items status body = transaction (
      save_idempotency_response jsonb now record {
        user_id = user;
        key = key;
        method = method;
        path = path;
        request_hash = hash items;
        status = status;
        body = body;
      })

-- The ids that `Cancel` drops from the cache are those it read before; a failed read gives none.
unfoldable pub cancel_order : Env → ℕ → ℕ → Call (Order × List ℕ)
unfolding reading find_by_id transaction cancel get item_product_ids
cancel_order env user id =
    call (reading (find_by_id user id)) (λ row. finish row.1) (λ e. finish [])
  where
    finish : List OrderItemModel → Call (Order × List ℕ)
    finish items =
        and_then (transaction (cancel env user id))
          λ made. and_then (get user made.0) λ order. returns (order, item_product_ids items)

-- The text of the outcome, trimmed and in lower case; none is a success.
unfoldable pub pay_outcome : Text → Option PayOutcome
unfolding trim_space
pay_outcome raw = read (to_lower (trim_space raw))
  where
    read : Text → Option PayOutcome
    read s =
        if is_empty s || text_eq s (codes "success")
        then some success
        else if text_eq s (codes "fail")
        then some fail
        else if text_eq s (codes "timeout")
        then some timeout
        else none

module _ (decimal : ℕ → Text) where
  unfoldable pub payment_key : ℕ → Text → Text
  unfolding trim_space
  payment_key id key =
      if is_empty (trim_space key) then codes "pay-" ++ decimal id else trim_space key

  abbrev pub pay_parsed :
      Env → ℕ → ℕ → Text → Option PayOutcome → Call (Order × Option PaymentModel)
  pay_parsed env user id key none = refuses invalid
  pay_parsed env user id key (some outcome) =
      and_then (transaction (pay env user id outcome (payment_key id key)))
        λ made. and_then (get user id) λ order. returns (order, made.1)

  unfoldable pub pay_order : Env → ℕ → ℕ → Text → Text → Call (Order × Option PaymentModel)
  unfolding pay_outcome transaction pay payment_key get
  pay_order env user id raw key = pay_parsed env user id key (pay_outcome raw)

unfoldable pub fulfill_order : Env → ℕ → Call Order
unfolding transaction fulfill reading find_by_id_any to_domain
fulfill_order env id =
    and_then (transaction (fulfill env id))
      λ made. and_then (reading (find_by_id_any made.0)) λ row. returns (found_order made.0 row)

-- `OrderHoldTTL` in seconds, where a value that is not positive is 15 minutes.
unfoldable pub hold_ttl : ℤ → ℕ
hold_ttl ttl = if leb_ℤ ttl (pos 0) then 15 * 60 else pos_part ttl

-- One turn of the loop of `ExpireStaleHolds`, with the rest of the loop, over `n` and the ids
-- dropped from the cache: an order that is not cancelled is passed over.
unfoldable pub expire_one :
    Env
    → ℕ
    → ℕ
    → List ℕ
    → (ℕ → List ℕ → Call (ℕ × List ℕ))
    → List OrderItemModel
    → Call (ℕ × List ℕ)
unfolding transaction cancel_system item_product_ids
expire_one env id n dropped rest items =
    call (transaction (cancel_system env id))
      (λ made. rest (suc n) (dropped ++ item_product_ids items)) (λ e. rest n dropped)

unfoldable pub expire_each : Env → List ℕ → ℕ → List ℕ → Call (ℕ × List ℕ)
unfolding reading find_by_id_any expire_one
expire_each env [] n dropped = returns (n, dropped)
expire_each env (id ∷ ids) n dropped =
    call (reading (find_by_id_any id))
      (λ row. expire_one env id n dropped (expire_each env ids) row.1)
      (λ e. expire_one env id n dropped (expire_each env ids) [])

-- One clock serves the sweep. A time before the origin of the clock is its origin.
unfoldable pub expire_stale_holds : Env → ℤ → Call (ℕ × List ℕ)
unfolding reading list_expired_pending_ids hold_ttl expire_each
expire_stale_holds env ttl =
    and_then (reading (list_expired_pending_ids (env.now - hold_ttl ttl) (pos 50)))
      λ ids. expire_each env ids 0 []
