-- ===== src/Orders/Returns.antt =====
-- The operations return when no statement fails: the loops over reservations get to their ends,
-- and the cancellation of an order that can be cancelled succeeds.
use mathlib.Core.Path.{subst}
use go_commerce.Base.{ℕ, ◌≡◌, refl, ap, ◌∙◌, some, List, [], ◌∷◌, where_rows, ==_refl}
use go_commerce.Domain.Errors.{Result, ok, err}
use go_commerce.Domain.Order.{OrderStatus, cancelled, transition}
use go_commerce.Store.Table.{lookup}
use go_commerce.Store.Models.{OrderModel, ReservationModel, Db}
use go_commerce.Store.Tx.{
  Tx, Outcome, done, abort, pure, statement, query, exec, transaction, lift, finish, Faults, ◌>>=◌,
}
use go_commerce.Store.Ensures.{Holds}
use go_commerce.Store.Rows.{Env, append_entry, enqueue}
use go_commerce.Orders.Stock.{restock, release_row, release_rows, release_reservations, held_for}
use go_commerce.Orders.Change.{load_owned, save_order, moved, cancel_locked, cancel}
use go_commerce.Orders.Release.{Distinct, Released, release_reservations-Released}

-- `m` gets to its end from `db` when no statement fails.
record Returns {A : Type 0} (m : Tx A) (db : Db) : Type 0 where
  value : A
  after : Db
  run : m db [] ≡ done value after []

Returns-bind :
    {A B : Type 0} {db : Db} (m : Tx A) (f : A → Tx B)
    → Returns m db
    → ((a : A) (d : Db) → Returns (f a) d)
    → Returns (m >>= f) db
Returns-bind m f r k =
    let next = k r.value r.after in
    record {
      value = next.value;
      after = next.after;
      run =
          ap (λ o. elim o [ done a d fs ↦ f a d fs | abort e fs ↦ abort e fs ]) (r.run) ∙ next.run;
    }

release_row-Returns :
    (now order : ℕ) (r : ReservationModel) (db : Db) → Returns (release_row now order r) db
unfolding release_row restock append_entry query exec statement
release_row-Returns now order r db = record { value = tt; after = _; run = refl }

release_rows-Returns :
    (now order : ℕ) (rows : List ReservationModel) (db : Db)
    → Returns (release_rows now order rows) db
unfolding release_rows
release_rows-Returns now order [] db = record { value = []; after = db; run = refl }
release_rows-Returns now order (r ∷ rows) db =
    Returns-bind (release_row now order r) _ (release_row-Returns now order r db) λ _ d.
      Returns-bind (release_rows now order rows) (λ ids. pure (r.product_id ∷ ids))
        (release_rows-Returns now order rows d)
        (λ ids d'. record { value = r.product_id ∷ ids; after = d'; run = refl })

release_reservations-Returns :
    (now order : ℕ) (db : Db) → Returns (release_reservations now order) db
unfolding release_reservations query statement
release_reservations-Returns now order db = record {
  value = all.value;
  after = all.after;
  run = all.run;
}
  where
    all : Returns (release_rows now order (where_rows (held_for order) db.reservations)) db
    all = release_rows-Returns now order (where_rows (held_for order) db.reservations) db

-- On a table of reservations with unique ids and when no statement fails, `releaseReservations`
-- gets to its end. It has then marked as released exactly the held reservations of the order, has
-- given each existing product back the stock that they held of it, and has left the orders, items,
-- payments, outbox, inbox and idempotency keys alone.
pub release_is_batch :
    (now order : ℕ) (db : Db)
    → Distinct db.reservations
    → (ids : List ℕ) × (d : Db) × (release_reservations now order db [] ≡ done ids d [])
      × Released now order db d
release_is_batch now order db u =
    let r = release_reservations-Returns now order db in
    (
      r.value,
      r.after,
      r.run,
      subst (Holds (λ _ x. Released now order db x)) (r.run)
          ((release_reservations-Released now order db u).at []),
    )

pub load_owned-returns :
    (user id : ℕ) (o : OrderModel) (db : Db)
    → lookup id db.orders ≡ some o
    → o.user_id ≡ user
    → load_owned user id db [] ≡ done o db []
unfolding load_owned query statement
load_owned-returns user id o db e u = rw (e, ← u) (rw (==_refl o.user_id) refl)

pub bind-done :
    {A B : Type 0} {db d : Db} {a : A} {o : Outcome B} (m : Tx A) (f : A → Tx B)
    → m db [] ≡ done a d []
    → f a d [] ≡ o
    → (m >>= f) db [] ≡ o
bind-done m f e k = ap (λ o. elim o [ done a d fs ↦ f a d fs | abort e fs ↦ abort e fs ]) e ∙ k

pub lift-done :
    (r : Result OrderStatus) (s : OrderStatus) (db : Db) → r ≡ ok s → lift r db [] ≡ done s db []
lift-done r s db e = ap (λ x. lift x db []) e

cancel_locked-run :
    (env : Env) (id : ℕ) (load : Tx OrderModel) (o : OrderModel) (db : Db)
    → load db [] ≡ done o db []
    → transition o.status cancelled ≡ ok cancelled
    → (d : Db) × (cancel_locked env id load db [] ≡ done (id, moved env.now cancelled o) d [])
unfolding cancel_locked save_order enqueue exec statement
cancel_locked-run env id load o db l t =
    let r = release_reservations-Returns env.now id db in
    (
      _,
      bind-done load _ l (
          bind-done (lift (transition o.status cancelled)) _
            (lift-done (transition o.status cancelled) cancelled db t)
            (bind-done (release_reservations env.now id) _ (r.run) refl)),
    )

pub transaction-runs :
    {A : Type 0} (a : A) (d db : Db) (m : Tx A)
    → m db [] ≡ done a d []
    → transaction m db [] ≡ (ok a, d, [])
unfolding transaction
transaction-runs {A} a d db m e =
    ap
      (λ o. elim o as (λ _. Result A × Db × Faults) [
        | done b c fs ↦ finish b db c fs
        | abort x fs ↦ (err x, db, fs)
      ])
      e

transaction-done :
    {A : Type 0} {a : A} {d db : Db} (m : Tx A)
    → m db [] ≡ done a d []
    → (transaction m db []).0 ≡ ok a
unfolding transaction
transaction-done {A} {db = db} m e =
    ap
      (λ o.
        (elim o as (λ _. Result A × Db × Faults) [
          | done a d fs ↦ finish a db d fs
          | abort x fs ↦ (err x, db, fs)
        ]).0)
      e

-- When no statement fails, the buyer's cancellation of an order whose status may become cancelled
-- succeeds. It answers the order with that status and the next version.
pub cancel_succeeds :
    (env : Env) (user id : ℕ) (o : OrderModel) (db : Db)
    → lookup id db.orders ≡ some o
    → o.user_id ≡ user
    → transition o.status cancelled ≡ ok cancelled
    → (transaction (cancel env user id) db []).0 ≡ ok (id, moved env.now cancelled o)
unfolding cancel
cancel_succeeds env user id o db e u t =
    transaction-done (cancel env user id) (
      (cancel_locked-run env id (load_owned user id) o db (load_owned-returns user id o db e u)
        t).1)
