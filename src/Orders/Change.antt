-- ===== src/Orders/Change.antt =====
-- The operations on an existing order (internal/http/order/repository.go: `Cancel`,
-- `CancelSystem`, `cancelLocked`, `Pay`, `Fulfill`), as the bodies of their transactions. The row
-- lock that each takes first is what makes the transactions on one order a sequence.
use go_commerce.Base.{
  ℕ, ◌+◌, Bool, ◌&&◌, ◌||◌, Option, none, some, [], ◌∷◌, ◌++◌, ◌==◌, if◌then◌else◌, first_row,
  is_some,
}
use go_commerce.Base.Text.{Text, text_eq}
use go_commerce.Domain.Errors.{not_found, unavailable}
use go_commerce.Domain.Order.{
  OrderStatus, paid, payment_failed, cancelled, fulfilled, PaymentStatus, succeeded, failed,
  order_paid, order_payment_failed, order_cancelled, order_fulfilled, EventType, transition,
  is_status,
}
use go_commerce.Store.Table.{lookup, adjust}
use go_commerce.Store.Models.{OrderModel, PaymentModel, ProviderRef, sim_ok, sim_fail, Payload, Db}
use go_commerce.Store.Tx.{Tx, pure, raise, lift, found, statement, query, exec, ◌>>=◌, ◌>>◌}
use go_commerce.Store.Rows.{Env, enqueue}
use go_commerce.Orders.Stock.{release_reservations, commit_reservations}
use go_commerce.Orders.Create.{order_payload}

abbrev pub owned_by : ℕ → Option OrderModel → Option OrderModel
owned_by user none = none
owned_by user (some o) = if o.user_id == user then some o else none

-- `WHERE id = ? AND user_id = ?`
unfoldable pub load_owned : ℕ → ℕ → Tx OrderModel
unfolding query
load_owned user id = do row ← query (λ db. owned_by user (lookup id db.orders)); found row not_found

-- `WHERE id = ?`
unfoldable pub load_any : ℕ → Tx OrderModel
unfolding query
load_any id = do row ← query (λ db. lookup id db.orders); found row not_found

abbrev pub moved : ℕ → OrderStatus → OrderModel → OrderModel
moved now next order = record order { status = next; version = order.version + 1; updated_at = now }

-- `tx.Save(order)`
unfoldable pub save_order : ℕ → OrderModel → Tx (Unit {0})
unfolding exec
save_order id order = exec λ db. record db { orders = adjust id (λ _. order) db.orders }

-- `cancelLocked`, with the loaded row for its argument `load`.
unfoldable pub cancel_locked : Env → ℕ → Tx OrderModel → Tx (ℕ × OrderModel)
unfolding save_order transition
cancel_locked env id load = do
  order ← load
  next ← lift (transition order.status cancelled)
  release_reservations env.now id
  save_order id (moved env.now next order)
  enqueue env id order_cancelled (order_payload id (moved env.now next order) none)
  pure (id, moved env.now next order)

unfoldable pub cancel : Env → ℕ → ℕ → Tx (ℕ × OrderModel)
unfolding cancel_locked load_owned
cancel env user id = cancel_locked env id (load_owned user id)

unfoldable pub cancel_system : Env → ℕ → Tx (ℕ × OrderModel)
unfolding cancel_locked load_any
cancel_system env id = cancel_locked env id (load_any id)

-- The outcomes that `Service.Pay` lets through.
pub data PayOutcome : Type 0 where
  success fail timeout : PayOutcome

unfoldable pub has_key : ℕ → Text → PaymentModel → Bool
has_key order key p = (p.order_id == order) && text_eq p.idempotency_key key

unfoldable pub find_payment : ℕ → Text → Db → Option PaymentModel
unfolding has_key
find_payment order key db = first_row (has_key order key) db.payments

abbrev pub with_payment : PaymentModel → Db → Db
with_payment pay db = record db { payments = db.payments ++ pay ∷ [] }

-- `tx.Create(&pay)`, under `UNIQUE (order_id, idempotency_key)`.
unfoldable pub insert_payment : PaymentModel → Tx (Unit {0})
unfolding statement find_payment
insert_payment pay = statement λ db.
    if is_some (find_payment pay.order_id pay.idempotency_key db)
    then none
    else some (tt, with_payment pay db)

abbrev pub new_payment : ℕ → ℕ → OrderModel → Text → PaymentStatus → ProviderRef → PaymentModel
new_payment now id order key status ref = record {
  order_id = id;
  idempotency_key = key;
  status = status;
  amount = order.total;
  provider_ref = ref;
  attempt = 1;
  created_at = now;
}

-- The statements that a charge ends with, in `Pay` and in the payment worker: the payment row, the
-- order row, the reservations, the outbox row.
unfoldable pub settle_payment :
    {A : Type 0}
    → Env
    → ℕ
    → PaymentModel
    → Tx (Unit {0})
    → Tx A
    → EventType
    → Payload
    → Tx (Unit {0})
settle_payment env id pay write stock type payload = do
  insert_payment pay
  write
  stock
  enqueue env id type payload

unfoldable pub pay_fail : Env → ℕ → OrderModel → Text → Tx (OrderModel × Option PaymentModel)
unfolding settle_payment transition save_order
pay_fail env id order key = do
  next ← lift (transition order.status payment_failed)
  let pay = new_payment env.now id order key failed sim_fail
  let order' = moved env.now next order
  settle_payment env id pay (save_order id order') (release_reservations env.now id)
      order_payment_failed (order_payload id order' none)
  pure (order', some pay)

unfoldable pub pay_success : Env → ℕ → OrderModel → Text → Tx (OrderModel × Option PaymentModel)
unfolding settle_payment transition save_order
pay_success env id order key = do
  next ← lift (transition order.status paid)
  let pay = new_payment env.now id order key succeeded sim_ok
  let order' = moved env.now next order
  settle_payment env id pay (save_order id order') (commit_reservations env.now id) order_paid
      (order_payload id order' (some order'.total))
  pure (order', some pay)

unfoldable pub charge :
    PayOutcome → Env → ℕ → OrderModel → Text → Tx (OrderModel × Option PaymentModel)
unfolding pay_fail pay_success
charge fail env id order key = pay_fail env id order key
charge timeout env id order key = raise unavailable
charge success env id order key = pay_success env id order key

-- What `Pay` does with the payment of this key that it looked up.
unfoldable pub pay_loaded :
    Env
    → ℕ
    → OrderModel
    → PayOutcome
    → Text
    → Option PaymentModel
    → Tx (OrderModel × Option PaymentModel)
unfolding charge
pay_loaded env id order outcome key (some existing) = pure (order, some existing)
pay_loaded env id order outcome key none =
    if is_status order.status paid || is_status order.status fulfilled
    then pure (order, none)
    else charge outcome env id order key

unfoldable pub pay : Env → ℕ → ℕ → PayOutcome → Text → Tx (OrderModel × Option PaymentModel)
unfolding load_owned query find_payment pay_loaded
pay env user id outcome key = do
  order ← load_owned user id
  existing ← query (find_payment id key)
  pay_loaded env id order outcome key existing

unfoldable pub fulfill : Env → ℕ → Tx (ℕ × OrderModel)
unfolding load_any transition save_order enqueue
fulfill env id = do
  order ← load_any id
  next ← lift (transition order.status fulfilled)
  save_order id (moved env.now next order)
  enqueue env id order_fulfilled (order_payload id (moved env.now next order) none)
  pure (id, moved env.now next order)
