-- ===== src/Orders/Units.antt =====
-- Conservation of stock: for every product, the stock on the shelf and the stock in reservations
-- that are held or committed add up to the same number, whatever an operation does.
use go_commerce.Base.{
  ℕ, ◌+◌, ◌<◌, ◌≡◌, refl, ◌∙◌, ap, true, Option, none, some, List, [], ◌∷◌, map, arith,
  if◌then◌else◌, where_rows, sum_by,
}
use go_commerce.Domain.Order.{committed, released}
use go_commerce.Base.Int.{ℤ, pos}
use go_commerce.Store.Table.{Table}
use go_commerce.Store.Models.{Product, ReservationModel, Reason, commit, Db}
use go_commerce.Store.Rows.{append_entry}
use go_commerce.Store.Ensures.{
  Ensures-weaken, Keeps, Keeps-pure, Keeps-bind, Keeps-query, Keeps-exec,
}
use go_commerce.Orders.Stock.{
  stock_of, held_for, set_status, mark_committed, release_reservations, commit_entries,
  commit_reservations,
}
use go_commerce.Orders.Release.{
  has_id, Distinct, release_if, qty_at, exists_product, Released, release_reservations-Released,
}

-- The units that a reservation keeps off the shelf.
abbrev pub counts : ℕ → ReservationModel → ℕ
counts p r = elim r.status [ released ↦ 0 | _ ↦ qty_at p r ]

abbrev pub reserved : ℕ → List ReservationModel → ℕ
reserved p rs = sum_by (counts p) rs

abbrev pub units : ℕ → Db → ℕ
units p db = stock_of p db.products + reserved p db.reservations

-- The constraints of the schema that the operations rely on: ids of reservations are unique and
-- below the sequence, and reservations name products.
abbrev pub Linked : Table Product → List ReservationModel → Type 0
Linked ps [] = Unit
Linked ps (r ∷ rs) = (exists_product r.product_id ps ≡ true) × Linked ps rs

abbrev pub BelowSerial : ℕ → List ReservationModel → Type 0
BelowSerial n [] = Unit
BelowSerial n (r ∷ rs) = (r.id < n) × BelowSerial n rs

-- Tables that keep these, and in which the product `p` has `n` units, whose stock is `s`.
pub record StockedIn (p n : ℕ) (ps : Table Product) (rs : List ReservationModel) (serial : ℕ)
    : Type 0 where
  pub distinct : Distinct rs
  pub below : BelowSerial serial rs
  pub linked : Linked ps rs
  pub exists : exists_product p ps ≡ true
  pub count : stock_of p ps + reserved p rs ≡ n

abbrev pub Stocked : ℕ → ℕ → Db → Type 0
Stocked p n db = StockedIn p n db.products db.reservations db.reservation_serial

-- Marking rows changes neither their ids nor their products.
module _ (f : ReservationModel → ReservationModel) where
  abbrev pub SameLinks : Type 0
  SameLinks = (r : ReservationModel) → ((f r).id ≡ r.id) × ((f r).product_id ≡ r.product_id)

  has_id-map : SameLinks → (k : ℕ) (l : List ReservationModel) → has_id k (map f l) ≡ has_id k l
  has_id-map s k [] = refl
  has_id-map s k (r ∷ l) = ground (arith, s r, has_id-map s k l)

  Distinct-map : SameLinks → (l : List ReservationModel) → Distinct l → Distinct (map f l)
  Distinct-map s [] h = tt
  Distinct-map s (r ∷ l) h = (rw ((s r).0) (has_id-map s r.id l ∙ h.0), Distinct-map s l h.1)

  BelowSerial-map :
      SameLinks → (n : ℕ) (l : List ReservationModel) → BelowSerial n l → BelowSerial n (map f l)
  BelowSerial-map s n [] h = tt
  BelowSerial-map s n (r ∷ l) h = (rw ((s r).0) h.0, BelowSerial-map s n l h.1)

  Linked-map :
      SameLinks
      → (ps qs : Table Product) → ((p : ℕ) → exists_product p qs ≡ exists_product p ps)
      → (l : List ReservationModel) → Linked ps l
      → Linked qs (map f l)
  Linked-map s ps qs e [] h = tt
  Linked-map s ps qs e (r ∷ l) h = (rw ((s r).1) (e r.product_id ∙ h.0), Linked-map s ps qs e l h.1)

release_if-SameLinks : (now order : ℕ) → SameLinks (release_if now order)
release_if-SameLinks now order r = ground arith

-- What the released rows gave up is what the stock got back.
sum-release_if :
    (now order p : ℕ) (l : List ReservationModel)
    → sum_by (counts p) (map (release_if now order) l)
        + sum_by (qty_at p) (where_rows (held_for order) l)
      ≡ sum_by (counts p) l
unfolding held_for
sum-release_if now order p [] = omega arith
sum-release_if now order p (r ∷ l) = ground (arith, sum-release_if now order p l)

Released-Stocked :
    (now order p n : ℕ) (db d : Db) → Stocked p n db → Released now order db d → Stocked p n d
Released-Stocked now order p n db d h e = record {
  distinct =
      rw e.reservations
        (Distinct-map _ (release_if-SameLinks now order) db.reservations h.distinct);
  below =
      rw (e.reservations, e.rest.serial_same)
        (BelowSerial-map _ (release_if-SameLinks now order) _ db.reservations h.below);
  linked = rw e.reservations (
      Linked-map _ (release_if-SameLinks now order) db.products d.products e.products
        db.reservations h.linked);
  exists = e.products p ∙ h.exists;
  count = omega (
    arith,
    ap (sum_by (counts p)) e.reservations,
    sum-release_if now order p db.reservations,
    e.stock p h.exists,
    h.count,
  );
}

pub release_reservations-Stocked :
    (now order p n : ℕ) → Keeps (Stocked p n) (release_reservations now order)
release_reservations-Stocked now order p n = record {
  at = λ db h.
      Ensures-weaken (release_reservations-Released now order db h.distinct)
        (λ _ d e. Released-Stocked now order p n db d h e);
}

abbrev pub commit_if : ℕ → ℕ → ReservationModel → ReservationModel
commit_if now order r = if held_for order r then set_status now committed r else r

commit_if-SameLinks : (now order : ℕ) → SameLinks (commit_if now order)
commit_if-SameLinks now order r = ground arith

-- Committing a held reservation leaves its units where they are.
sum-commit_if :
    (now order p : ℕ) (l : List ReservationModel)
    → sum_by (counts p) (map (commit_if now order) l) ≡ sum_by (counts p) l
unfolding held_for
sum-commit_if now order p [] = refl
sum-commit_if now order p (r ∷ l) = ground (arith, sum-commit_if now order p l)

mark_committed-Stocked :
    (now order p n : ℕ) (db : Db)
    → Stocked p n db
    → Stocked p n (record db { reservations = mark_committed now order db.reservations })
unfolding mark_committed
mark_committed-Stocked now order p n db h = record {
  distinct = Distinct-map _ (commit_if-SameLinks now order) db.reservations h.distinct;
  below = BelowSerial-map _ (commit_if-SameLinks now order) _ db.reservations h.below;
  linked =
      Linked-map _ (commit_if-SameLinks now order) db.products db.products (λ _. refl)
        db.reservations h.linked;
  exists = h.exists;
  count = omega (arith, sum-commit_if now order p db.reservations, h.count);
}

append_entry-Stocked :
    (now product : ℕ) (order : Option ℕ) (delta : ℤ) (reason : Reason) (bal : Option ℕ) (p n : ℕ)
    → Keeps (Stocked p n) (append_entry now product order delta reason bal)
unfolding append_entry
append_entry-Stocked now product order delta reason bal p n = Keeps-exec _ (λ db h. h)

commit_entries-Stocked :
    (now order p n : ℕ) (rows : List ReservationModel)
    → Keeps (Stocked p n) (commit_entries now order rows)
unfolding commit_entries
commit_entries-Stocked now order p n [] = Keeps-pure tt
commit_entries-Stocked now order p n (r ∷ rows) =
    Keeps-bind _ _ (append_entry-Stocked now r.product_id (some order) (pos 0) commit none p n)
      (λ _. commit_entries-Stocked now order p n rows)

pub commit_reservations-Stocked :
    (now order p n : ℕ) → Keeps (Stocked p n) (commit_reservations now order)
unfolding commit_reservations
commit_reservations-Stocked now order p n = Keeps-bind _ _ (Keeps-query _) λ rows.
    Keeps-bind _ _ (commit_entries-Stocked now order p n rows)
      (λ _. Keeps-exec _ (mark_committed-Stocked now order p n))
