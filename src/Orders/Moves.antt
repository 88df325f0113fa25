-- ===== src/Orders/Moves.antt =====
-- `Cancel`, `CancelSystem` and `Fulfill` keep every invariant that obeys the rules.
use go_commerce.Base.{
  ℕ, ◌≡◌, refl, Bool, true, false, Option, none, some, [], ◌∷◌, ◌++◌, arith, if◌then◌else◌, is_some,
}
use go_commerce.Domain.Errors.{not_found}
use go_commerce.Domain.Order.{cancelled, fulfilled, EventType, transition}
use go_commerce.Store.Table.{lookup, adjust}
use go_commerce.Store.Models.{OrderModel, PaymentModel, Payload, Db}
use go_commerce.Store.Tx.{Tx, exec, ◌>>=◌}
use go_commerce.Store.Ensures.{
  Ensures, Ensures-pure, Ensures-bind, Ensures-write, Ensures-read, Ensures-statement,
  Ensures-of-found, Ensures-lift, Keeps,
}
use go_commerce.Store.Rows.{Env}
use go_commerce.Orders.Change.{
  owned_by, load_owned, load_any, save_order, cancel_locked, cancel, cancel_system, with_payment,
  find_payment, insert_payment, settle_payment, pay, fulfill,
}
use go_commerce.Orders.Frame.{Ledgered, enqueue-Ledgered, release_reservations-Ledgered}
use go_commerce.Orders.Rules.{Invariant, Rules}

-- A loaded row is the row of the table, and loading changes nothing.
abbrev pub Loaded : ℕ → Db → OrderModel → Db → Type 0
Loaded id db o d = (d ≡ db) × (lookup id db.orders ≡ some o)

owned_by-some :
    (user : ℕ) (row : Option OrderModel) (o : OrderModel)
    → owned_by user row ≡ some o
    → row ≡ some o
owned_by-some user none o h = cc
owned_by-some user (some q) o h = ground arith

pub load_owned-Loaded : (user id : ℕ) (db : Db) → Ensures db (load_owned user id) (Loaded id db)
unfolding load_owned
load_owned-Loaded user id db =
    Ensures-read _ _
      (Ensures-of-found _ not_found (λ o e. (refl, owned_by-some user (lookup id db.orders) o e)))

pub load_any-Loaded : (id : ℕ) (db : Db) → Ensures db (load_any id) (Loaded id db)
unfolding load_any
load_any-Loaded id db = Ensures-read _ _ (Ensures-of-found _ not_found (λ o e. (refl, e)))

inserted-payment :
    (pay : PaymentModel) (b : Bool) (db : Db) {a : Unit {0}} {d : Db}
    → if◌then◌else◌ {A = Option (Unit {0} × Db)} b none (some (tt, with_payment pay db))
      ≡ some (a, d)
    → d ≡ with_payment pay db
inserted-payment pay true db e = cc
inserted-payment pay false db e = cc

pub insert_payment-lem :
    (pay : PaymentModel) (db : Db)
    → Ensures db (insert_payment pay) (λ _ d. d ≡ with_payment pay db)
unfolding insert_payment
insert_payment-lem pay db =
    Ensures-statement _ λ a d e.
      inserted-payment pay (is_some (find_payment pay.order_id pay.idempotency_key db)) db e

module _ {P : Invariant} (R : Rules P) where
  pub settle_payment-Keeps :
      {A : Type 0} (env : Env) (id : ℕ) (pay : PaymentModel) (g : OrderModel → OrderModel)
      (stock : Tx A) (t : EventType) (pl : Payload) (db : Db)
      → P (adjust id g db.orders) db.order_serial (db.payments ++ pay ∷ [])
      → Keeps (Ledgered P) stock
      → Ensures db
          (settle_payment env id pay
            (exec (λ x. record x { orders = adjust id g x.orders }))
            stock
            t
            pl)
          (λ _ d. Ledgered P d)
  unfolding settle_payment
  settle_payment-Keeps env id pay g stock t pl db h ks =
      Ensures-bind _ _ (insert_payment-lem pay db) λ _ d₁ e₁.
        Ensures-write _ _ (
          Ensures-bind _ _ (ks.at _ (rw e₁ h)) λ _ d₂ h₂. (enqueue-Ledgered P env id t pl).at d₂ h₂)

  -- The rest of an operation, from the database that its load left.
  pub after-load :
      {A : Type 0} (load : Tx OrderModel) (id : ℕ) (k : OrderModel → Tx A) (db : Db)
      → Ensures db load (Loaded id db)
      → ((o : OrderModel) → lookup id db.orders ≡ some o → Ensures db (k o) (λ _ d. Ledgered P d))
      → Ensures db (load >>= k) (λ _ d. Ledgered P d)
  after-load load id k db hl hk = Ensures-bind load k hl (λ o d e. rw (e.0) (hk o (e.1)))

  pub fulfill-Keeps : (env : Env) (id : ℕ) → Keeps (Ledgered P) (fulfill env id)
  unfolding fulfill save_order
  fulfill-Keeps env id = record {
    at = λ db h. after-load (load_any id) id _ db (load_any-Loaded id db) λ o e.
        Ensures-lift (transition o.status fulfilled) _ λ next t. Ensures-write _ _ (
          Ensures-bind _ _
            ((enqueue-Ledgered P env id _ _).at _ (
              R.fulfills db.orders db.order_serial db.payments id _ o
                (record { now = env.now; next = next; loaded = e; legal = t; effect = refl }) h))
            (λ _ d' k'. Ensures-pure _ k'));
  }

  cancel_locked-Keeps :
      (env : Env) (id : ℕ) (load : Tx OrderModel) (db : Db)
      → Ensures db load (Loaded id db)
      → Ledgered P db
      → Ensures db (cancel_locked env id load) (λ _ d. Ledgered P d)
  unfolding cancel_locked save_order
  cancel_locked-Keeps env id load db hl h = after-load load id _ db hl λ o e.
      Ensures-lift (transition o.status cancelled) _ λ next t.
        Ensures-bind _ _
          ((release_reservations-Ledgered (λ os n ps. (lookup id os ≡ some o) × P os n ps) env.now
              id).at
            db (e, h))
          λ _ d k. Ensures-write _ _ (
            Ensures-bind _ _
              ((enqueue-Ledgered P env id _ _).at _ (
                R.cancels d.orders d.order_serial d.payments id _ o
                  (record { now = env.now; next = next; loaded = k.0; legal = t; effect = refl })
                  (k.1)))
              (λ _ d₂ k₂. Ensures-pure _ k₂))

  pub cancel-Keeps : (env : Env) (user id : ℕ) → Keeps (Ledgered P) (cancel env user id)
  unfolding cancel
  cancel-Keeps env user id = record {
    at =
        λ db h. cancel_locked-Keeps env id (load_owned user id) db (load_owned-Loaded user id db) h;
  }

  pub cancel_system-Keeps : (env : Env) (id : ℕ) → Keeps (Ledgered P) (cancel_system env id)
  unfolding cancel_system
  cancel_system-Keeps env id = record {
    at = λ db h. cancel_locked-Keeps env id (load_any id) db (load_any-Loaded id db) h;
  }
