-- ===== src/Workers/Inventory.antt =====
-- internal/worker/inventory/handler.go: committing or releasing the reservations of an order on
-- the events of its life, and the keys of the product cache that a release drops.
use go_commerce.Base.{ℕ, Bool, true, false, not, List, [], if◌then◌else◌, ◌==◌, where_rows}
use go_commerce.Domain.Errors.{Result, ok}
use go_commerce.Domain.Order.{
  EventType, order_paid, order_payment_failed, order_cancelled, order_fulfilled,
}
use go_commerce.Store.Models.{inventory, Db}
use go_commerce.Store.Tx.{Tx, Faults, pure, transaction, ◌>>=◌, ◌>>◌}
use go_commerce.Store.Rows.{Env, claim}
use go_commerce.Orders.Stock.{release_reservations, commit_reservations}
use go_commerce.Workers.Payload.{Message, order_id_of, for_order}

unfoldable pub commit_tx : ℕ → ℕ → Tx (Unit {0})
unfolding commit_reservations
commit_tx now order = commit_reservations now order

unfoldable pub release_tx : ℕ → ℕ → Tx (List ℕ)
unfolding release_reservations
release_tx now order = release_reservations now order

-- The `switch` inside the transaction; the ids are those that `released` collects.
unfoldable pub apply_event : Env → ℕ → EventType → Tx (List ℕ)
unfolding commit_tx release_tx
apply_event env id order_paid = do commit_tx env.now id; pure []
apply_event env id order_fulfilled = do commit_tx env.now id; pure []
apply_event env id order_cancelled = release_tx env.now id
apply_event env id order_payment_failed = release_tx env.now id
apply_event env id _ = pure []

unfoldable pub apply_claimed : Env → ℕ → EventType → Bool → Tx (List ℕ)
unfolding apply_event
apply_claimed env id type false = pure []
apply_claimed env id type true = apply_event env id type

unfoldable pub stock_event : Env → ℕ → Message → Tx (List ℕ)
unfolding claim apply_claimed
stock_event env id msg = do
  claimed ← claim env.now inventory msg.event_id msg.event_type
  apply_claimed env id msg.event_type claimed

-- The first `switch`: the events that the handler reacts to.
unfoldable pub moves_stock : EventType → Bool
moves_stock order_paid = true
moves_stock order_fulfilled = true
moves_stock order_cancelled = true
moves_stock order_payment_failed = true
moves_stock _ = false

-- `bustProductCache`: the ids of the keys `product:<id>` that are deleted.
unfoldable pub busted : List ℕ → List ℕ
busted ids = where_rows (λ id. not (id == 0)) ids

-- `Handle`, with the ids that it hands to `bustProductCache`.
unfoldable pub handle_stock : Env → Message → Db → Faults → Result (List ℕ) × Db × Faults
unfolding moves_stock order_id_of transaction stock_event
handle_stock env msg db fs =
    if moves_stock msg.event_type
    then for_order (order_id_of msg) (λ id. stock_event env id msg) db fs
    else (ok [], db, fs)
