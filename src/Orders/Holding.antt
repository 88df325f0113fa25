-- ===== src/Orders/Holding.antt =====
-- `CreateOrder` conserves the units of every product: between its two loops the stock that the
-- lines took is in no reservation yet.
use go_commerce.Base.{
  ℕ, ◌+◌, ◌*◌, ◌-◌, ◌<◌, ◌≡◌, refl, ◌∙◌, Bool, true, false, Option, none, some, List, [], ◌∷◌, ◌++◌,
  arith, ◌==◌, if◌then◌else◌, sum_by, sum_by-append,
}
use go_commerce.Base.Int.{pos_part}
use go_commerce.Domain.Errors.{invalid, not_found, conflict}
use go_commerce.Store.Table.{Table, lookup, lookup-adjust}
use go_commerce.Store.Models.{Product, ReservationModel, Db}
use go_commerce.Store.Tx.{raise}
use go_commerce.Store.Ensures.{
  Ensures, Ensures-pure, Ensures-raise, Ensures-bind, Ensures-read, Ensures-write, Ensures-found,
  Ensures-statement, Ensures-exec, Ensures-if,
}
use go_commerce.Store.Rows.{append_entry}
use go_commerce.Orders.Stock.{stock_of, take_stock, has_stock, held_products, try_hold, hold_stock}
use go_commerce.Orders.Create.{
  CreateItem, Line, is_bad, line_of, held_row, take_line, hold_line, hold_lines, new_reservation,
  with_reservation, is_reserved, insert_reservation, insert_item, write_line, write_lines,
}
use go_commerce.Orders.Release.{has_id, Distinct, exists_product}
use go_commerce.Orders.Units.{counts, Linked, BelowSerial, Stocked}

abbrev pub line_at : ℕ → Line → ℕ
line_at p ln = if ln.product_id == p then ln.qty else 0

abbrev pub LinesExist : Table Product → List Line → Type 0
LinesExist ps [] = Unit
LinesExist ps (ln ∷ lns) = (exists_product ln.product_id ps ≡ true) × LinesExist ps lns

-- The product `p` has `n` units, counting what the lines hold.
pub record Holding (p n : ℕ) (lns : List Line) (db : Db) : Type 0 where
  pub others : ℕ
  pub stocked : Stocked p others db
  pub sum : others + sum_by (line_at p) lns ≡ n
  pub lines : LinesExist db.products lns

pub exists-held :
    (now id q p : ℕ) (ps : Table Product)
    → exists_product p (held_products now id q ps) ≡ exists_product p ps
exists-held now id q p ps = ground (arith, lookup-adjust id p (take_stock now q) ps)

-- The guarded update takes exactly the quantity, of this product alone.
pub stock_of-held :
    (now id q p : ℕ) (ps : Table Product)
    → has_stock q (lookup id ps) ≡ true
    → stock_of p (held_products now id q ps) + (if id == p then q else 0) ≡ stock_of p ps
unfolding stock_of
stock_of-held now id q p ps h = grind (arith, lookup-adjust id p (take_stock now q) ps)

try_hold_lem :
    (now id q : ℕ) (db : Db) {b : Bool} {d : Db}
    → some (try_hold now id q db) ≡ some (b, d)
    → b ≡ true
    → (has_stock q (lookup id db.products) ≡ true)
      × (d ≡ record db { products = held_products now id q db.products })
try_hold_lem now id q db e t = ground arith

pub hold_stock_lem :
    (now id q : ℕ) (db : Db)
    → Ensures db (hold_stock now id q) (λ b d.
      b ≡ true
      → (has_stock q (lookup id db.products) ≡ true)
        × (d ≡ record db { products = held_products now id q db.products }))
unfolding hold_stock
hold_stock_lem now id q db =
    Ensures-statement (λ x. some (try_hold now id q x)) (λ b d e t. try_hold_lem now id q db e t)

Linked-held :
    (now id q : ℕ) (ps : Table Product) (rs : List ReservationModel)
    → Linked ps rs
    → Linked (held_products now id q ps) rs
Linked-held now id q ps [] h = tt
Linked-held now id q ps (r ∷ rs) h =
    (exists-held now id q r.product_id ps ∙ h.0, Linked-held now id q ps rs h.1)

LinesExist-held :
    (now id q : ℕ) (ps : Table Product) (lns : List Line) (ln : Line)
    → LinesExist ps lns
    → exists_product ln.product_id ps ≡ true
    → LinesExist (held_products now id q ps) (lns ++ ln ∷ [])
LinesExist-held now id q ps [] ln h e = (exists-held now id q ln.product_id ps ∙ e, tt)
LinesExist-held now id q ps (x ∷ lns) ln h e =
    (exists-held now id q x.product_id ps ∙ h.0, LinesExist-held now id q ps lns ln h.1 e)

has_stock-exists :
    (q id : ℕ) (ps : Table Product)
    → has_stock q (lookup id ps) ≡ true
    → exists_product id ps ≡ true
has_stock-exists q id ps h = ground arith

Holding-held :
    (now p n : ℕ) (lns : List Line) (ln : Line) (db : Db)
    → Holding p n lns db
    → has_stock ln.qty (lookup ln.product_id db.products) ≡ true
    → Holding p n
        (lns ++ ln ∷ [])
        (record db { products = held_products now ln.product_id ln.qty db.products })
Holding-held now p n lns ln db h e =
    let taken = stock_of-held now ln.product_id ln.qty p db.products e in
    record {
      others = h.others - line_at p ln;
      stocked = record {
        distinct = h.stocked.distinct;
        below = h.stocked.below;
        linked = Linked-held now ln.product_id ln.qty db.products db.reservations h.stocked.linked;
        exists = exists-held now ln.product_id ln.qty p db.products ∙ h.stocked.exists;
        count = omega (arith, taken, h.stocked.count);
      };
      sum = omega (arith, taken, h.stocked.count, h.sum, sum_by-append (line_at p) lns (ln ∷ []));
      lines =
          LinesExist-held now ln.product_id ln.qty db.products lns ln h.lines
            (has_stock-exists ln.qty ln.product_id db.products e);
    }

pub held_row_lem :
    (b : Bool) (ln : Line) (d : Db) (P : Line → Db → Type 0)
    → (b ≡ true → P ln d)
    → Ensures d (held_row b ln) P
held_row_lem true ln d P h = Ensures-pure ln (h refl)
held_row_lem false ln d P h = Ensures-raise conflict

take_line-Holding :
    (now p n : ℕ) (it : CreateItem) (lns : List Line) (db : Db)
    → Holding p n lns db
    → Ensures db (take_line now it) (λ ln d. Holding p n (lns ++ ln ∷ []) d)
unfolding take_line
take_line-Holding now p n it lns db h = Ensures-read _ _ (
    Ensures-found _ not_found _ λ row _.
      Ensures-bind _ _ (hold_stock_lem now it.product_id (pos_part it.qty) db) λ b d e.
        held_row_lem b (line_of it row) d (λ ln x. Holding p n (lns ++ ln ∷ []) x)
          λ t. moved row d ((e t).1) ((e t).0))
  where
    moved :
        (row : Product) (d : Db)
        → d ≡ record db { products = held_products now it.product_id (pos_part it.qty) db.products }
        → has_stock (pos_part it.qty) (lookup it.product_id db.products) ≡ true
        → Holding p n (lns ++ line_of it row ∷ []) d
    moved row d e t = rw e (Holding-held now p n lns (line_of it row) db h t)

hold_line-Holding :
    (now p n : ℕ) (it : CreateItem) (lns : List Line) (db : Db)
    → Holding p n lns db
    → Ensures db (hold_line now it) (λ ln d. Holding p n (lns ++ ln ∷ []) d)
unfolding hold_line
hold_line-Holding now p n it lns db h =
    Ensures-if (is_bad it) (raise invalid) (take_line now it) (λ _. Ensures-raise invalid)
      (λ _. take_line-Holding now p n it lns db h)

pub hold_lines-Holding :
    (now p n : ℕ) (its : List CreateItem) (lns : List Line) (total : ℕ) (db : Db)
    → Holding p n lns db
    → Ensures db (hold_lines now its lns total) (λ r d. Holding p n r.0 d)
unfolding hold_lines
hold_lines-Holding now p n [] lns total db h = Ensures-pure (lns, total) h
hold_lines-Holding now p n (it ∷ its) lns total db h =
    Ensures-bind _ _ (hold_line-Holding now p n it lns db h)
      λ ln d k. hold_lines-Holding now p n its (lns ++ ln ∷ []) (total + ln.price * ln.qty) d k

-- A row with the next id of the sequence keeps the ids unique.
has_id_below : (n : ℕ) (rs : List ReservationModel) → BelowSerial n rs → has_id n rs ≡ false
has_id_below n [] h = refl
has_id_below n (r ∷ rs) h = ground (arith, has_id_below n rs h.1)

has_id-append :
    (k : ℕ) (rs : List ReservationModel) (r : ReservationModel)
    → has_id k rs ≡ false
    → k < r.id
    → has_id k (rs ++ r ∷ []) ≡ false
has_id-append k [] r h lt = ground arith
has_id-append k (x ∷ rs) r h lt = ground (arith, has_id-append k rs r)

Distinct-append :
    (n : ℕ) (rs : List ReservationModel) (r : ReservationModel)
    → r.id ≡ n
    → BelowSerial n rs
    → Distinct rs
    → Distinct (rs ++ r ∷ [])
Distinct-append n [] r e b h = (refl, tt)
Distinct-append n (x ∷ rs) r e b h =
    (has_id-append x.id rs r h.0 (omega (arith, b.0, e)), Distinct-append n rs r e b.1 h.1)

BelowSerial-append :
    (n : ℕ) (rs : List ReservationModel) (r : ReservationModel)
    → r.id ≡ n
    → BelowSerial n rs
    → BelowSerial (n + 1) (rs ++ r ∷ [])
BelowSerial-append n [] r e b = (omega arith, tt)
BelowSerial-append n (x ∷ rs) r e b = (omega (arith, b.0), BelowSerial-append n rs r e b.1)

Linked-append :
    (ps : Table Product) (rs : List ReservationModel) (r : ReservationModel)
    → exists_product r.product_id ps ≡ true
    → Linked ps rs
    → Linked ps (rs ++ r ∷ [])
Linked-append ps [] r e h = (e, tt)
Linked-append ps (x ∷ rs) r e h = (h.0, Linked-append ps rs r e h.1)

pub inserted :
    (now order : ℕ) (ln : Line) (b : Bool) (db : Db) {a : Unit {0}} {d : Db}
    → if◌then◌else◌ {A = Option (Unit {0} × Db)} b none
        (some (tt, with_reservation now order ln db))
      ≡ some (a, d)
    → d ≡ with_reservation now order ln db
inserted now order ln true db e = cc
inserted now order ln false db e = cc

Holding-reserved :
    (now order p n : ℕ) (ln : Line) (lns : List Line) (db : Db)
    → Holding p n (ln ∷ lns) db
    → Holding p n lns (with_reservation now order ln db)
Holding-reserved now order p n ln lns db h =
    let k = db.reservation_serial in
    let new = new_reservation now order ln k in
    record {
      others = h.others + line_at p ln;
      stocked = record {
        distinct = Distinct-append k db.reservations new refl h.stocked.below h.stocked.distinct;
        below = BelowSerial-append k db.reservations new refl h.stocked.below;
        linked = Linked-append db.products db.reservations new h.lines.0 h.stocked.linked;
        exists = h.stocked.exists;
        count = omega (arith, sum_by-append (counts p) db.reservations (new ∷ []), h.stocked.count);
      };
      sum = omega (arith, h.sum);
      lines = h.lines.1;
    }

insert_reservation-Holding :
    (now order p n : ℕ) (ln : Line) (lns : List Line) (db : Db)
    → Holding p n (ln ∷ lns) db
    → Ensures db (insert_reservation now order ln) (λ _ d. Holding p n lns d)
unfolding insert_reservation
insert_reservation-Holding now order p n ln lns db h = Ensures-statement _ λ a d e.
    rw (inserted now order ln (is_reserved order ln.product_id db) db e)
      (Holding-reserved now order p n ln lns db h)

write_line-Holding :
    (now order p n : ℕ) (ln : Line) (lns : List Line) (db : Db)
    → Holding p n (ln ∷ lns) db
    → Ensures db (write_line now order ln) (λ _ d. Holding p n lns d)
unfolding write_line insert_item append_entry
write_line-Holding now order p n ln lns db h = Ensures-write _ _ (
    Ensures-bind _ _
      (insert_reservation-Holding now order p n ln lns _
        (record { others = h.others; stocked = h.stocked; sum = h.sum; lines = h.lines }))
      λ _ d k. Ensures-read _ _ (
        Ensures-exec _
          (record { others = k.others; stocked = k.stocked; sum = k.sum; lines = k.lines })))

pub write_lines-Stocked :
    (now order p n : ℕ) (lns : List Line) (db : Db)
    → Holding p n lns db
    → Ensures db (write_lines now order lns) (λ _ d. Stocked p n d)
unfolding write_lines
write_lines-Stocked now order p n [] db h = Ensures-pure tt (record {
  distinct = h.stocked.distinct;
  below = h.stocked.below;
  linked = h.stocked.linked;
  exists = h.stocked.exists;
  count = omega (arith, h.stocked.count, h.sum);
})
write_lines-Stocked now order p n (ln ∷ lns) db h =
    Ensures-bind _ _ (write_line-Holding now order p n ln lns db h)
      (λ _ d k. write_lines-Stocked now order p n lns d k)
