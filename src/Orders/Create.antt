-- ===== src/Orders/Create.antt =====
-- `repository.CreateOrder` of internal/http/order/repository.go.
use go_commerce.Base.{
  ℕ, ◌+◌, ◌*◌, Bool, true, false, ◌&&◌, ◌||◌, Option, none, some, List, [], ◌∷◌, ◌++◌, ◌==◌,
  if◌then◌else◌, first_row, is_some,
}
use go_commerce.Base.Int.{ℤ, pos, pos_part, leb_ℤ, neg}
use go_commerce.Domain.Errors.{invalid, not_found, conflict}
use go_commerce.Domain.Order.{pending_payment, held, order_created}
use go_commerce.Store.Table.{lookup, insert}
use go_commerce.Store.Models.{
  Product, OrderModel, ReservationModel, Payload, uint, nil, idr, hold, Db,
}
use go_commerce.Store.Tx.{Tx, pure, raise, found, statement, query, exec, ◌>>=◌, ◌>>◌}
use go_commerce.Store.Rows.{Env, append_entry, enqueue}
use go_commerce.Orders.Stock.{hold_stock, stock_of}

-- Both `CreateItem` and `CreateItemInput`, whose fields are the same.
pub record CreateItem : Type 0 where
  pub product_id : ℕ
  pub qty : ℤ

-- The local type `line`.
pub record Line : Type 0 where
  pub product_id : ℕ
  pub qty : ℕ
  pub price : ℕ

abbrev pub live : Option Product → Option Product
live none = none
live (some p) = if p.is_deleted then none else some p

-- `if res.RowsAffected == 0 { return ErrConflict }`, else the line.
abbrev pub held_row : Bool → Line → Tx Line
held_row true ln = pure ln
held_row false ln = raise conflict

-- `it.ProductID == 0 || it.Qty <= 0`
abbrev pub is_bad : CreateItem → Bool
is_bad it = (it.product_id == 0) || leb_ℤ it.qty (pos 0)

abbrev pub line_of : CreateItem → Product → Line
line_of it p = record { product_id = it.product_id; qty = pos_part it.qty; price = p.price }

unfoldable pub take_line : ℕ → CreateItem → Tx Line
unfolding query hold_stock
take_line now it = do
  row ← query (λ db. live (lookup it.product_id db.products))
  p ← found row not_found
  changed ← hold_stock now it.product_id (pos_part it.qty)
  held_row changed (line_of it p)

-- One turn of the first loop. Behind the guard the quantity is positive, so that its positive part
-- is its value.
unfoldable pub hold_line : ℕ → CreateItem → Tx Line
unfolding take_line
hold_line now it = if is_bad it then raise invalid else take_line now it

-- The first loop, over `lines` and `total`.
unfoldable pub hold_lines : ℕ → List CreateItem → List Line → ℕ → Tx (List Line × ℕ)
unfolding hold_line
hold_lines now [] lines total = pure (lines, total)
hold_lines now (it ∷ its) lines total = do
  ln ← hold_line now it
  hold_lines now its (lines ++ ln ∷ []) (total + ln.price * ln.qty)

unfoldable pub insert_order : ℕ → ℕ → ℕ → Tx (ℕ × OrderModel)
unfolding statement
insert_order now user total =
    let order : OrderModel = record {
      user_id = user;
      status = pending_payment;
      total = total;
      currency = idr;
      version = 1;
      created_at = now;
      updated_at = now;
    } in
    statement λ db. some (
      (db.order_serial, order),
      record db {
        orders = insert db.order_serial order db.orders;
        order_serial = db.order_serial + 1;
      },
    )

abbrev pub reserves : ℕ → ℕ → ReservationModel → Bool
reserves order product r = (r.order_id == order) && (r.product_id == product)

abbrev pub new_reservation : ℕ → ℕ → Line → ℕ → ReservationModel
new_reservation now order ln id = record {
  id = id;
  order_id = order;
  product_id = ln.product_id;
  qty = ln.qty;
  status = held;
  created_at = now;
  updated_at = now;
}

abbrev pub with_reservation : ℕ → ℕ → Line → Db → Db
with_reservation now order ln db = record db {
  reservations = db.reservations ++ new_reservation now order ln db.reservation_serial ∷ [];
  reservation_serial = db.reservation_serial + 1;
}

abbrev pub is_reserved : ℕ → ℕ → Db → Bool
is_reserved order product db = is_some (first_row (reserves order product) db.reservations)

-- `tx.Create(&resv)`, under `UNIQUE (order_id, product_id)` of migrations/000005_commerce.up.sql.
unfoldable pub insert_reservation : ℕ → ℕ → Line → Tx (Unit {0})
unfolding statement
insert_reservation now order ln = statement λ db.
    if is_reserved order ln.product_id db then none else some (tt, with_reservation now order ln db)

unfoldable pub insert_item : ℕ → Line → Tx (Unit {0})
unfolding exec
insert_item order ln = exec λ db. record db {
  items =
      db.items
      ++ record {
        order_id = order;
        product_id = ln.product_id;
        qty = ln.qty;
        unit_price = ln.price;
      }
        ∷ [];
}

-- One turn of the second loop.
unfoldable pub write_line : ℕ → ℕ → Line → Tx (Unit {0})
unfolding insert_item insert_reservation query stock_of append_entry
write_line now order ln = do
  insert_item order ln
  insert_reservation now order ln
  bal ← query (λ db. stock_of ln.product_id db.products)
  append_entry now ln.product_id (some order) (neg ln.qty) hold (some bal)

unfoldable pub write_lines : ℕ → ℕ → List Line → Tx (Unit {0})
unfolding write_line
write_lines now order [] = pure tt
write_lines now order (ln ∷ lns) = do write_line now order ln; write_lines now order lns

abbrev pub order_payload : ℕ → OrderModel → Option ℕ → Payload
order_payload id order total = record {
  order_id = uint id;
  user_id = order.user_id;
  status = order.status;
  total = total;
  simulate_outcome = nil;
}

-- The body of the transaction of `CreateOrder`.
unfoldable pub create_order : Env → ℕ → List CreateItem → Tx (ℕ × OrderModel)
create_order env user [] = raise invalid
create_order env user (it ∷ its) = do
  held_lines ← hold_lines env.now (it ∷ its) [] 0
  order ← insert_order env.now user held_lines.1
  write_lines env.now order.0 held_lines.0
  enqueue env order.0 order_created (order_payload order.0 order.1 (some order.1.total))
  pure order
