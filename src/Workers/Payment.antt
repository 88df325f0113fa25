-- ===== src/Workers/Payment.antt =====
-- internal/worker/payment/handler.go: charging an order on its `order.created` event.
use go_commerce.Base.{
  ℕ, ◌+◌, Bool, true, false, ◌||◌, Option, none, some, List, ◌++◌, if◌then◌else◌,
}
use go_commerce.Base.Text.{Text, codes, text_eq}
use go_commerce.Domain.Errors.{Result, ok, err}
use go_commerce.Domain.Order.{
  OrderStatus, paid, payment_failed, cancelled, fulfilled, succeeded, failed, order_paid,
  order_payment_failed, transition, is_status,
}
use go_commerce.Store.Table.{lookup, adjust}
use go_commerce.Store.Models.{
  OrderModel, PaymentModel, AnyValue, text, worker_sim_ok, worker_sim_fail, payment, Db,
}
use go_commerce.Store.Tx.{Tx, Faults, pure, query, exec, transaction, ◌>>=◌}
use go_commerce.Store.Rows.{Env, claim}
use go_commerce.Orders.Stock.{release_reservations, commit_reservations}
use go_commerce.Orders.Create.{order_payload}
use go_commerce.Orders.Change.{moved, find_payment, new_payment, settle_payment}
use go_commerce.Workers.Payload.{Message, order_id_of, for_order}

-- `attemptKey := "evt:" + msg.Event.ID`
abbrev pub attempt_key : Text → Text
attempt_key id = codes "evt:" ++ id

-- `Updates(map[string]any{"status": next, "version": order.Version + 1, …})` with `WHERE id = ?`
unfoldable pub update_status : ℕ → ℕ → OrderStatus → ℕ → Tx (Unit {0})
unfolding exec
update_status now id next version = exec λ db. record db {
  orders =
      adjust id (λ o. record o { status = next; version = version; updated_at = now }) db.orders;
}

-- `releaseHeld` and `commitHeld`: the statements of the order repository's functions.
unfoldable pub release_held : ℕ → ℕ → Tx (List ℕ)
unfolding release_reservations
release_held now order = release_reservations now order

unfoldable pub commit_held : ℕ → ℕ → Tx (Unit {0})
unfolding commit_reservations
commit_held now order = commit_reservations now order

-- `if v, ok := payload["simulateOutcome"].(string); ok && v == "fail"`: any other text, and no
-- text, is a success.
unfoldable pub simulates_failure : AnyValue → Bool
simulates_failure (text s) = text_eq s (codes "fail")
simulates_failure _ = false

-- An illegal transition is treated as already handled.
unfoldable pub charge_fail : Env → ℕ → OrderModel → Text → Result OrderStatus → Tx (Unit {0})
unfolding settle_payment update_status release_held
charge_fail env id order key (err e) = pure tt
charge_fail env id order key (ok next) =
    settle_payment env id (new_payment env.now id order key failed worker_sim_fail)
      (update_status env.now id next (order.version + 1)) (release_held env.now id)
      order_payment_failed (order_payload id (moved env.now next order) none)

unfoldable pub charge_success : Env → ℕ → OrderModel → Text → Result OrderStatus → Tx (Unit {0})
unfolding settle_payment update_status commit_held
charge_success env id order key (err e) = pure tt
charge_success env id order key (ok next) =
    settle_payment env id (new_payment env.now id order key succeeded worker_sim_ok)
      (update_status env.now id next (order.version + 1)) (commit_held env.now id) order_paid
      (order_payload id (moved env.now next order) (some order.total))

-- The order is paid, fulfilled or cancelled: nothing is left to charge.
unfoldable pub is_done : OrderStatus → Bool
is_done s = is_status s paid || is_status s fulfilled || is_status s cancelled

unfoldable pub charge_order : Env → ℕ → Message → OrderModel → Tx (Unit {0})
unfolding is_done simulates_failure transition charge_fail charge_success
charge_order env id msg order =
    if is_done order.status
    then pure tt
    else if simulates_failure msg.payload.simulate_outcome
    then charge_fail env id order (attempt_key msg.event_id)
        (transition order.status payment_failed)
    else charge_success env id order (attempt_key msg.event_id) (transition order.status paid)

unfoldable pub charge_unless_paid :
    Env → ℕ → Message → OrderModel → Option PaymentModel → Tx (Unit {0})
unfolding charge_order
charge_unless_paid env id msg order (some existing) = pure tt
charge_unless_paid env id msg order none = charge_order env id msg order

-- A missing order is acknowledged.
unfoldable pub charge_found : Env → ℕ → Message → Option OrderModel → Tx (Unit {0})
unfolding query find_payment charge_unless_paid
charge_found env id msg none = pure tt
charge_found env id msg (some order) = do
  existing ← query (find_payment id (attempt_key msg.event_id))
  charge_unless_paid env id msg order existing

unfoldable pub charge_claimed : Env → ℕ → Message → Bool → Tx (Unit {0})
unfolding query charge_found
charge_claimed env id msg false = pure tt
charge_claimed env id msg true = do
  row ← query (λ db. lookup id db.orders)
  charge_found env id msg row

-- The body of the transaction of `HandleOrderCreated`.
unfoldable pub charge_event : Env → ℕ → Message → Tx (Unit {0})
unfolding claim charge_claimed
charge_event env id msg = do
  claimed ← claim env.now payment msg.event_id msg.event_type
  charge_claimed env id msg claimed

unfoldable pub handle_order_created : Env → Message → Db → Faults → Result (Unit {0}) × Db × Faults
unfolding order_id_of transaction charge_event
handle_order_created env msg db fs =
    for_order (order_id_of msg) (λ id. charge_event env id msg) db fs
