-- ===== src/Orders/Stock.antt =====
-- Stock held by reservations (internal/http/order/repository.go: the guarded UPDATE of
-- `CreateOrder`, `releaseReservations` and `commitReservations`). The workers' `releaseHeld`,
-- `releaseTX`, `commitHeld` and `commitTX` run the same statements.
use go_commerce.Base.{
  ℕ, ◌+◌, ◌-◌, Bool, true, false, not, ◌&&◌, Option, none, some, List, [], ◌∷◌, map, ◌==◌, leb,
  if◌then◌else◌, where_rows,
}
use go_commerce.Base.Int.{pos}
use go_commerce.Domain.Order.{ReservationStatus, held, committed, released}
use go_commerce.Store.Table.{Table, lookup, adjust}
use go_commerce.Store.Models.{Product, ReservationModel, release, commit, Db}
use go_commerce.Store.Tx.{Tx, pure, statement, query, exec, ◌>>=◌, ◌>>◌}
use go_commerce.Store.Rows.{append_entry}

-- `SELECT stock FROM products WHERE id = ?`, scanned into a variable that is 0.
unfoldable pub stock_of : ℕ → Table Product → ℕ
stock_of id products = elim (lookup id products) [ none ↦ 0 | some p ↦ p.stock ]

abbrev pub take_stock : ℕ → ℕ → Product → Product
take_stock now q p = record p { stock = p.stock - q; updated_at = now }

abbrev pub add_stock : ℕ → ℕ → Product → Product
add_stock now q p = record p { stock = p.stock + q; updated_at = now }

-- `… WHERE deleted_at IS NULL AND stock >= q`, of the row with the id.
abbrev pub has_stock : ℕ → Option Product → Bool
has_stock q none = false
has_stock q (some p) = not p.is_deleted && leb q p.stock

abbrev pub held_products : ℕ → ℕ → ℕ → Table Product → Table Product
held_products now id q products = adjust id (take_stock now q) products

abbrev pub try_hold : ℕ → ℕ → ℕ → Db → Bool × Db
try_hold now id q db =
    if has_stock q (lookup id db.products)
    then (true, record db { products = held_products now id q db.products })
    else (false, db)

-- `UPDATE products SET stock = stock - q WHERE id = ? AND deleted_at IS NULL AND stock >= q`, and
-- whether it changed a row.
unfoldable pub hold_stock : ℕ → ℕ → ℕ → Tx Bool
unfolding statement
hold_stock now id q = statement (λ db. some (try_hold now id q db))

-- `UPDATE products SET stock = stock + q WHERE id = ?`
unfoldable pub restock : ℕ → ℕ → ℕ → Tx (Unit {0})
unfolding exec
restock now id q = exec λ db. record db { products = adjust id (add_stock now q) db.products }

abbrev pub is_held : ReservationStatus → Bool
is_held held = true
is_held _ = false

-- `order_id = ? AND status = 'held'`
unfoldable pub held_for : ℕ → ReservationModel → Bool
held_for order r = (r.order_id == order) && is_held r.status

abbrev pub set_status : ℕ → ReservationStatus → ReservationModel → ReservationModel
set_status now s r = record r { status = s; updated_at = now }

-- `UPDATE inventory_reservations SET status = 'released' WHERE id = ?`
unfoldable pub mark_released : ℕ → ℕ → List ReservationModel → List ReservationModel
mark_released now id rows = map (λ r. if r.id == id then set_status now released r else r) rows

-- One turn of the loop of `releaseReservations`.
unfoldable pub release_row : ℕ → ℕ → ReservationModel → Tx (Unit {0})
unfolding restock query append_entry exec stock_of mark_released
release_row now order row = do
  restock now row.product_id row.qty
  bal ← query (λ db. stock_of row.product_id db.products)
  append_entry now row.product_id (some order) (pos row.qty) release (some bal)
  exec (λ db. record db { reservations = mark_released now row.id db.reservations })

-- The loop; the product ids that it returns are those that `releaseTX` collects.
unfoldable pub release_rows : ℕ → ℕ → List ReservationModel → Tx (List ℕ)
unfolding release_row
release_rows now order [] = pure []
release_rows now order (row ∷ rows) = do
  release_row now order row
  ids ← release_rows now order rows
  pure (row.product_id ∷ ids)

unfoldable pub release_reservations : ℕ → ℕ → Tx (List ℕ)
unfolding query release_rows held_for
release_reservations now order = do
  rows ← query (λ db. where_rows (held_for order) db.reservations)
  release_rows now order rows

unfoldable pub commit_entries : ℕ → ℕ → List ReservationModel → Tx (Unit {0})
unfolding append_entry
commit_entries now order [] = pure tt
commit_entries now order (row ∷ rows) = do
  append_entry now row.product_id (some order) (pos 0) commit none
  commit_entries now order rows

-- `UPDATE … SET status = 'committed' WHERE order_id = ? AND status = 'held'`
unfoldable pub mark_committed : ℕ → ℕ → List ReservationModel → List ReservationModel
unfolding held_for
mark_committed now order rows =
    map (λ r. if held_for order r then set_status now committed r else r) rows

unfoldable pub commit_reservations : ℕ → ℕ → Tx (Unit {0})
unfolding query commit_entries exec mark_committed
commit_reservations now order = do
  rows ← query (λ db. where_rows (held_for order) db.reservations)
  commit_entries now order rows
  exec (λ db. record db { reservations = mark_committed now order db.reservations })
