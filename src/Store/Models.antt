-- ===== src/Store/Models.antt =====
-- The rows of the commerce schema (internal/http/order/model.go, internal/platform/inbox,
-- ledger and outbox, internal/http/product/model.go) and the database that holds them. Amounts
-- are whole units of the currency, on which the `float64` arithmetic of the source is exact.
-- Times are seconds.
use go_commerce.Base.{ℕ, Option, List, Bool}
use go_commerce.Base.Int.{ℤ}
use go_commerce.Base.Text.{Text}
use go_commerce.Domain.Order.{OrderStatus, ReservationStatus, PaymentStatus, EventType}
use go_commerce.Store.Table.{Table}

pub record Product : Type 0 where
  pub user_id : ℕ
  pub name : Text
  pub description : Text
  pub price : ℕ
  pub stock : ℕ
  pub updated_at : ℕ
  pub is_deleted : Bool

pub data Currency : Type 0 where
  idr : Currency

pub record OrderModel : Type 0 where
  pub user_id : ℕ
  pub status : OrderStatus
  pub total : ℕ
  pub currency : Currency
  pub version : ℕ
  pub created_at : ℕ
  pub updated_at : ℕ

pub record OrderItemModel : Type 0 where
  pub order_id : ℕ
  pub product_id : ℕ
  pub qty : ℕ
  pub unit_price : ℕ

pub record ReservationModel : Type 0 where
  pub id : ℕ
  pub order_id : ℕ
  pub product_id : ℕ
  pub qty : ℕ
  pub status : ReservationStatus
  pub created_at : ℕ
  pub updated_at : ℕ

-- The texts that the code stores in `payments.provider_ref`.
pub data ProviderRef : Type 0 where
  sim_ok sim_fail worker_sim_ok worker_sim_fail : ProviderRef

pub record PaymentModel : Type 0 where
  pub order_id : ℕ
  pub idempotency_key : Text
  pub status : PaymentStatus
  pub amount : ℕ
  pub provider_ref : ProviderRef
  pub attempt : ℕ
  pub created_at : ℕ

pub record IdempotencyModel : Type 0 where
  pub key : Text
  pub user_id : ℕ
  pub method : Text
  pub path : Text
  pub request_hash : Text
  pub response_status : Option ℕ
  pub response_body : Text
  pub created_at : ℕ

pub data Reason : Type 0 where
  hold release commit adjustment : Reason

pub record Entry : Type 0 where
  pub product_id : ℕ
  pub order_id : Option ℕ
  pub delta : ℤ
  pub reason : Reason
  pub balance_after : Option ℕ
  pub created_at : ℕ

pub data Consumer : Type 0 where
  payment inventory : Consumer

pub record InboxRow : Type 0 where
  pub event_id : Text
  pub consumer : Consumer
  pub event_type : EventType
  pub processed_at : ℕ

-- The JSON values of a payload, as `encoding/json` and Go's `any` distinguish them.
pub data AnyValue : Type 0 where
  float64 : ℕ → AnyValue
  int int64 : ℤ → AnyValue
  uint uint64 : ℕ → AnyValue
  text : Text → AnyValue
  nil : AnyValue

-- The keys that the code writes to or reads from a payload; a missing key reads as `nil`.
pub record Payload : Type 0 where
  pub order_id : AnyValue
  pub user_id : ℕ
  pub status : OrderStatus
  pub total : Option ℕ
  pub simulate_outcome : AnyValue

pub record EventRow : Type 0 where
  pub id : ℕ
  pub event_id : Text
  pub aggregate_id : ℕ
  pub event_type : EventType
  pub payload : Payload
  pub created_at : ℕ
  pub published_at : Option ℕ

pub record Db : Type 0 where
  pub products : Table Product
  pub orders : Table OrderModel
  pub order_serial : ℕ
  pub items : List OrderItemModel
  pub reservations : List ReservationModel
  pub reservation_serial : ℕ
  pub payments : List PaymentModel
  pub idempotency : List IdempotencyModel
  pub outbox : List EventRow
  pub ledger : List Entry
  pub inbox : List InboxRow
