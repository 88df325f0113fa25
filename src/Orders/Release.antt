-- ===== src/Orders/Release.antt =====
-- The loop of `releaseReservations` as one batch update: what it leaves in each table.
use go_commerce.Base.{
  ℕ, ◌+◌, ◌≡◌, refl, ◌∙◌, ap, Bool, true, false, some, List, [], ◌∷◌, ◌++◌, map, arith, ◌==◌,
  ==_refl, if◌then◌else◌, is_some, where_rows, sum_by, inl, inr, Bool-cases,
}
use go_commerce.Base.Int.{pos}
use go_commerce.Domain.Order.{released}
use go_commerce.Store.Table.{Table, lookup, adjust, lookup-adjust}
use go_commerce.Store.Models.{Product, ReservationModel, Entry, release, Db}
use go_commerce.Store.Ensures.{
  Ensures, Ensures-pure, Ensures-bind, Ensures-read, Ensures-write, Ensures-exec, Ensures-weaken,
}
use go_commerce.Store.Rows.{append_entry}
use go_commerce.Orders.Stock.{
  stock_of, add_stock, held_for, set_status, mark_released, restock, release_row, release_rows,
  release_reservations,
}

abbrev pub release_entry : ℕ → ℕ → ReservationModel → Db → Entry
release_entry now order row db = record {
  product_id = row.product_id;
  order_id = some order;
  delta = pos row.qty;
  reason = release;
  balance_after = some (stock_of row.product_id db.products);
  created_at = now;
}

abbrev pub restocked : ℕ → ReservationModel → Db → Db
restocked now row db = record db {
  products = adjust row.product_id (add_stock now row.qty) db.products;
}

-- The database after one turn of the loop, and after the loop.
abbrev pub released_one : ℕ → ℕ → ReservationModel → Db → Db
released_one now order row db = record db {
  products = adjust row.product_id (add_stock now row.qty) db.products;
  ledger = db.ledger ++ release_entry now order row (restocked now row db) ∷ [];
  reservations = mark_released now row.id db.reservations;
}

abbrev pub released_all : ℕ → ℕ → List ReservationModel → Db → Db
released_all now order [] db = db
released_all now order (row ∷ rows) db = released_all now order rows (released_one now order row db)

release_row_lem :
    (now order : ℕ) (row : ReservationModel) (db : Db)
    → Ensures db (release_row now order row) (λ _ d. d ≡ released_one now order row db)
unfolding release_row restock append_entry
release_row_lem now order row db =
    Ensures-write _ _ (Ensures-read _ _ (Ensures-write _ _ (Ensures-exec _ refl)))

abbrev pub product_of : ReservationModel → ℕ
product_of r = r.product_id

pub release_rows_lem :
    (now order : ℕ) (rows : List ReservationModel) (db : Db)
    → Ensures db
        (release_rows now order rows)
        (λ ids d. (d ≡ released_all now order rows db) × (ids ≡ map product_of rows))
unfolding release_rows
release_rows_lem now order [] db = Ensures-pure [] (refl, refl)
release_rows_lem now order (row ∷ rows) db =
    Ensures-bind (release_row now order row) _ (release_row_lem now order row db) λ _ d e.
      Ensures-bind (release_rows now order rows) _ (release_rows_lem now order rows d) λ ids d' p.
        Ensures-pure (row.product_id ∷ ids)
          (p.0 ∙ ap (released_all now order rows) e, ap (λ l. row.product_id ∷ l) p.1)

module _ (now : ℕ) where
  mark_all : List ReservationModel → List ReservationModel → List ReservationModel
  mark_all [] l = l
  mark_all (r ∷ rs) l = mark_all rs (mark_released now r.id l)

  mark : List ReservationModel → ReservationModel → ReservationModel
  mark [] x = x
  mark (r ∷ rs) x = mark rs (if x.id == r.id then set_status now released x else x)

  mark_all-cons :
      (rs : List ReservationModel) (x : ReservationModel) (l : List ReservationModel)
      → mark_all rs (x ∷ l) ≡ mark rs x ∷ mark_all rs l
  unfolding mark_all mark mark_released
  mark_all-cons [] x l = refl
  mark_all-cons (r ∷ rs) x l = mark_all-cons rs _ _

-- The key of the table is unique.
abbrev pub has_id : ℕ → List ReservationModel → Bool
has_id k [] = false
has_id k (r ∷ rs) = if r.id == k then true else has_id k rs

abbrev pub Distinct : List ReservationModel → Type 0
Distinct [] = Unit
Distinct (r ∷ rs) = (has_id r.id rs ≡ false) × Distinct rs

mark_fresh :
    (now : ℕ) (rs : List ReservationModel) (x : ReservationModel)
    → has_id x.id rs ≡ false
    → mark now rs x ≡ x
unfolding mark
mark_fresh now [] x h = refl
mark_fresh now (r ∷ rs) x h = ground (arith, mark_fresh now rs x)

mark_released_fresh :
    (now k : ℕ) (l : List ReservationModel) → has_id k l ≡ false → mark_released now k l ≡ l
unfolding mark_released
mark_released_fresh now k [] h = refl
mark_released_fresh now k (r ∷ l) h = ground (arith, mark_released_fresh now k l)

has_id-where_rows :
    (k : ℕ) (p : ReservationModel → Bool) (l : List ReservationModel)
    → has_id k l ≡ false
    → has_id k (where_rows p l) ≡ false
has_id-where_rows k p [] h = refl
has_id-where_rows k p (r ∷ l) h = ground (arith, has_id-where_rows k p l)

-- The batch update that the loop amounts to.
abbrev pub release_if : ℕ → ℕ → ReservationModel → ReservationModel
release_if now order r = if held_for order r then set_status now released r else r

mark_released-cons :
    (now : ℕ) (x : ReservationModel) (l : List ReservationModel)
    → has_id x.id l ≡ false
    → mark_released now x.id (x ∷ l) ≡ set_status now released x ∷ l
mark_released-cons now x l h = go (mark_released_fresh now x.id l h)
  where
    go :
        mark_released now x.id l ≡ l
        → mark_released now x.id (x ∷ l) ≡ set_status now released x ∷ l
    go e =
        unfold mark_released in
        rw ==_refl (ap (λ t. set_status now released x ∷ t) (unfold mark_released in e))

mark_all_skip :
    (now order : ℕ) (x : ReservationModel) (l : List ReservationModel)
    → has_id x.id l ≡ false
    → mark_all now (where_rows (held_for order) l) (x ∷ l)
      ≡ x ∷ mark_all now (where_rows (held_for order) l) l
mark_all_skip now order x l h =
    mark_all-cons now (where_rows (held_for order) l) x l
    ∙ ap (λ y. y ∷ mark_all now (where_rows (held_for order) l) l)
        (mark_fresh now _ x (has_id-where_rows x.id (held_for order) l h))

mark_all_take :
    (now order : ℕ) (x : ReservationModel) (l : List ReservationModel)
    → has_id x.id l ≡ false
    → mark_all now (x ∷ where_rows (held_for order) l) (x ∷ l)
      ≡ set_status now released x ∷ mark_all now (where_rows (held_for order) l) l
unfolding mark_all
mark_all_take now order x l h =
    ap (mark_all now (where_rows (held_for order) l)) (mark_released-cons now x l h)
    ∙ mark_all-cons now (where_rows (held_for order) l) (set_status now released x) l
    ∙ ap (λ y. y ∷ mark_all now (where_rows (held_for order) l) l)
        (mark_fresh now _ (set_status now released x) (has_id-where_rows x.id (held_for order) l h))

mark_all-where_rows :
    (now order : ℕ) (l : List ReservationModel)
    → Distinct l
    → mark_all now (where_rows (held_for order) l) l ≡ map (release_if now order) l
mark_all-where_rows now order [] h = unfold mark_all in refl
mark_all-where_rows now order (x ∷ l) h = elim (Bool-cases (held_for order x)) [
  | inl e ↦ rw e (
      mark_all_take now order x l h.0
      ∙ ap (λ t. set_status now released x ∷ t) (mark_all-where_rows now order l h.1))
  | inr e ↦
      rw e (mark_all_skip now order x l h.0 ∙ ap (λ t. x ∷ t) (mark_all-where_rows now order l h.1))
]

reservations-released_all :
    (now order : ℕ) (rows : List ReservationModel) (db : Db)
    → (released_all now order rows db).reservations ≡ mark_all now rows db.reservations
unfolding mark_all
reservations-released_all now order [] db = refl
reservations-released_all now order (row ∷ rows) db =
    reservations-released_all now order rows (released_one now order row db)

-- What else the loop leaves alone.
pub record SameRest (d db : Db) : Type 0 where
  pub orders_same : d.orders ≡ db.orders
  pub order_serial_same : d.order_serial ≡ db.order_serial
  pub items_same : d.items ≡ db.items
  pub serial_same : d.reservation_serial ≡ db.reservation_serial
  pub payments_same : d.payments ≡ db.payments
  pub outbox_same : d.outbox ≡ db.outbox
  pub inbox_same : d.inbox ≡ db.inbox
  pub idempotency_same : d.idempotency ≡ db.idempotency

released_all-SameRest :
    (now order : ℕ) (rows : List ReservationModel) (db : Db)
    → SameRest (released_all now order rows db) db
released_all-SameRest now order [] db = record {
  orders_same = refl;
  order_serial_same = refl;
  items_same = refl;
  serial_same = refl;
  payments_same = refl;
  outbox_same = refl;
  inbox_same = refl;
  idempotency_same = refl;
}
released_all-SameRest now order (row ∷ rows) db =
    let h = released_all-SameRest now order rows (released_one now order row db) in
    record {
      orders_same = h.orders_same;
      order_serial_same = h.order_serial_same;
      items_same = h.items_same;
      serial_same = h.serial_same;
      payments_same = h.payments_same;
      outbox_same = h.outbox_same;
      inbox_same = h.inbox_same;
      idempotency_same = h.idempotency_same;
    }

-- The quantity of a reservation, if it is of the product.
abbrev pub qty_at : ℕ → ReservationModel → ℕ
qty_at p r = if r.product_id == p then r.qty else 0

abbrev pub exists_product : ℕ → Table Product → Bool
exists_product p products = is_some (lookup p products)

pub exists-released_all :
    (now order p : ℕ) (rows : List ReservationModel) (db : Db)
    → exists_product p (released_all now order rows db).products ≡ exists_product p db.products
exists-released_all now order p [] db = refl
exists-released_all now order p (row ∷ rows) db =
    exists-released_all now order p rows (released_one now order row db)
    ∙ ground (arith, lookup-adjust row.product_id p (add_stock now row.qty) db.products)

pub stock_of-released_one :
    (now order p : ℕ) (row : ReservationModel) (db : Db)
    → exists_product p db.products ≡ true
    → stock_of p (released_one now order row db).products ≡ stock_of p db.products + qty_at p row
unfolding stock_of
stock_of-released_one now order p row db h =
    ground (arith, lookup-adjust row.product_id p (add_stock now row.qty) db.products)

stock_of-released_all :
    (now order p : ℕ) (rows : List ReservationModel) (db : Db)
    → exists_product p db.products ≡ true
    → stock_of p (released_all now order rows db).products
      ≡ stock_of p db.products + sum_by (qty_at p) rows
stock_of-released_all now order p [] db h = omega arith
stock_of-released_all now order p (row ∷ rows) db h =
    let ih =
      stock_of-released_all now order p rows (released_one now order row db)
        (exists-released_all now order p (row ∷ []) db ∙ h) in
    omega (arith, ih, stock_of-released_one now order p row db h)

-- The stock that the held reservations of an order hold of a product.
abbrev pub held_qty : ℕ → ℕ → Db → ℕ
held_qty order p db = sum_by (qty_at p) (where_rows (held_for order) db.reservations)

-- The effect of `releaseReservations` on the database.
pub record Released (now order : ℕ) (db d : Db) : Type 0 where
  pub reservations : d.reservations ≡ map (release_if now order) db.reservations
  pub stock :
      (p : ℕ)
      → exists_product p db.products ≡ true
      → stock_of p d.products ≡ stock_of p db.products + held_qty order p db
  pub products : (p : ℕ) → exists_product p d.products ≡ exists_product p db.products
  pub rest : SameRest d db

-- If `releaseReservations` gets to its end on a table with unique ids, it has marked as released
-- exactly the held reservations of the order, has given the stock of every existing product back
-- what those held of it, and has left the orders, items, payments, outbox, inbox and idempotency
-- keys alone.
pub release_reservations-Released :
    (now order : ℕ) (db : Db)
    → Distinct db.reservations
    → Ensures db (release_reservations now order) (λ _ d. Released now order db d)
unfolding release_reservations
release_reservations-Released now order db u =
    Ensures-read _ _ (Ensures-weaken (release_rows_lem now order _ db) λ ids d e. finish d e.0)
  where
    finish :
        (d : Db)
        → d ≡ released_all now order (where_rows (held_for order) db.reservations) db
        → Released now order db d
    finish d e =
        let rows : List ReservationModel = where_rows (held_for order) db.reservations in
        rw e (record {
          reservations =
              reservations-released_all now order rows db
              ∙ mark_all-where_rows now order db.reservations u;
          stock = λ p h. stock_of-released_all now order p rows db h;
          products = λ p. exists-released_all now order p rows db;
          rest = released_all-SameRest now order rows db;
        })
