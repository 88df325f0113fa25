-- ===== src/Tests/Ordering.antt =====
-- Runs of the operations on orders.
use go_commerce.Base.{ℕ, ◌≡◌, refl, List, [], ◌∷◌, not, ◌==◌, Option, none, some, where_rows}
use go_commerce.Base.Text.{Text, codes, text_eq}
use go_commerce.Domain.Errors.{ok}
use go_commerce.Domain.Order.{
  pending_payment, paid, payment_failed, cancelled, released, transition, is_status,
}
use go_commerce.Store.Models.{Db}
use go_commerce.Store.Tx.{done, transaction}
use go_commerce.Store.Rows.{enqueue}
use go_commerce.Orders.Stock.{commit_reservations, release_reservations}
use go_commerce.Orders.Create.{CreateItem}
use go_commerce.Orders.Change.{success, find_payment, insert_payment, pay, cancel, moved}
use go_commerce.Orders.Release.{Released}
use go_commerce.Orders.Returns.{release_is_batch, cancel_succeeds}
use go_commerce.Orders.Paying.{Paid, payment_of, payment_settles}
use go_commerce.Orders.Queries.{idempotency_row}
use go_commerce.Orders.Service.{replay, create_with_key, remember_idempotent}
use go_commerce.Orders.Replay.{stored_key_replays}
use go_commerce.Workers.Payment.{handle_order_created}
use go_commerce.Workers.Inventory.{handle_stock}
use go_commerce.Workers.Redelivery.{redelivered_charge, redelivered_stock}
use go_commerce.Tests.{
  env, later, order_in, two_held, shop, created_message, cancelled_message, three_rice,
}

redelivered_charge_example :
    (handle_order_created later created_message
      (handle_order_created env created_message (shop pending_payment) []).1
      []).1
    ≡ (handle_order_created env created_message (shop pending_payment) []).1
unfolding handle_order_created is_status text_eq insert_payment enqueue
redelivered_charge_example =
    redelivered_charge env later created_message created_message (shop pending_payment) [] [] refl
      refl

redelivered_stock_example :
    (handle_stock later cancelled_message
      (handle_stock env cancelled_message (shop pending_payment) []).1
      []).1
    ≡ (handle_stock env cancelled_message (shop pending_payment) []).1
unfolding handle_stock
redelivered_stock_example =
    redelivered_stock env later cancelled_message cancelled_message (shop pending_payment) [] []
      (1 ∷ []) refl refl refl

release_is_batch_example :
    (ids : List ℕ) × (d : Db) × (release_reservations 100 1 (shop pending_payment) []
      ≡ done ids d [])
    × Released 100 1 (shop pending_payment) d
release_is_batch_example = release_is_batch 100 1 (shop pending_payment) (refl, tt)

cancel_succeeds_example :
    (transaction (cancel env 7 1) (shop payment_failed) []).0
    ≡ ok (1, moved 100 cancelled (order_in payment_failed))
unfolding transition
cancel_succeeds_example =
    cancel_succeeds env 7 1 (order_in payment_failed) (shop payment_failed) refl refl refl

-- A digest that tells the lengths of the lists apart.
abbrev digest : List CreateItem → Text
digest [] = codes "0"
digest (it ∷ its) = codes "1"

-- A column that keeps no spaces and refuses an empty text.
abbrev jsonb : Text → Option Text
jsonb [] = none
jsonb (c ∷ s) = some (where_rows (λ x. not (x == 32)) (c ∷ s))

abbrev remembered_shop : Db
remembered_shop =
    (remember_idempotent digest jsonb 100 7 (codes "k") (codes "POST") (codes "/orders")
      (three_rice ∷ []) 201 (codes "{ }") (shop pending_payment) []).1

stored_key_replays_example :
    create_with_key digest later 7 (three_rice ∷ []) (codes "k") remembered_shop []
    ≡ (ok (replay 201 (codes "{}")), remembered_shop, [])
unfolding idempotency_row text_eq
stored_key_replays_example =
    stored_key_replays digest jsonb later 100 7 (codes "k") (codes "POST") (codes "/orders")
      (three_rice ∷ []) [] three_rice 201 (codes "{ }") (codes "{}") (shop pending_payment) refl
      refl refl refl

payment_settles_example :
    (d : Db) × (transaction (pay env 7 1 success (codes "k")) (shop pending_payment) [] ≡ (
      ok (
        moved 100 paid (order_in pending_payment),
        some (payment_of env 1 (order_in pending_payment) (codes "k") (shop pending_payment)),
      ),
      d,
      [],
    ))
    × Paid env 1 (order_in pending_payment) (codes "k") (shop pending_payment) d
unfolding transition find_payment
payment_settles_example =
    payment_settles env 7 1 (order_in pending_payment) (codes "k") (shop pending_payment) refl refl
      refl refl

-- Order 1 after its payment failed and its reservation was released.
abbrev failed_shop : Db
failed_shop = record (shop payment_failed) {
  reservations = record two_held { status = released } ∷ [];
}

-- A later payment succeeds, and no units are set aside again.
retry_pays :
    ((transaction (pay env 7 1 success (codes "retry")) failed_shop []).1.orders
      ≡ (1, record (order_in paid) { version = 2; updated_at = 100 }) ∷ [])
    × ((transaction (pay env 7 1 success (codes "retry")) failed_shop []).1.reservations
        ≡ record two_held { status = released } ∷ [])
unfolding transaction pay text_eq is_status insert_payment commit_reservations enqueue
retry_pays = (refl, refl)
