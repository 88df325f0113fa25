-- ===== src/Orders/Payments.antt =====
-- `CreateOrder` and `Pay` keep every invariant that obeys the rules.
use go_commerce.Base.{ℕ, ◌≡◌, refl, ◌||◌, Option, none, some, List, [], ◌∷◌}
use go_commerce.Base.Text.{Text}
use go_commerce.Domain.Errors.{invalid, unavailable}
use go_commerce.Domain.Order.{
  paid, payment_failed, fulfilled, succeeded, failed, order_paid, order_payment_failed, transition,
  is_status,
}
use go_commerce.Store.Table.{lookup}
use go_commerce.Store.Models.{OrderModel, PaymentModel, sim_ok, sim_fail, Db}
use go_commerce.Store.Tx.{pure}
use go_commerce.Store.Ensures.{
  Ensures, Ensures-pure, Ensures-raise, Ensures-bind, Ensures-read, Ensures-lift, Ensures-if,
  Ensures-always, Keeps, Keeps-raise,
}
use go_commerce.Store.Rows.{Env}
use go_commerce.Orders.Stock.{release_reservations, commit_reservations}
use go_commerce.Orders.Create.{CreateItem, insert_order, create_order}
use go_commerce.Orders.Change.{
  load_owned, moved, save_order, PayOutcome, success, fail, timeout, new_payment, pay_fail,
  pay_success, charge, pay_loaded, pay,
}
use go_commerce.Orders.Frame.{
  Ledgered, enqueue-Ledgered, release_reservations-Ledgered, commit_reservations-Ledgered,
  hold_lines-Ledgered, write_lines-Ledgered,
}
use go_commerce.Orders.Rules.{Invariant, Rules}
use go_commerce.Orders.Moves.{load_owned-Loaded, settle_payment-Keeps, after-load}

module _ {P : Invariant} (R : Rules P) where
  pay_success-Keeps :
      (env : Env) (id : ℕ) (o : OrderModel) (key : Text) (db : Db)
      → lookup id db.orders ≡ some o
      → Ledgered P db
      → Ensures db (pay_success env id o key) (λ _ d. Ledgered P d)
  unfolding pay_success save_order
  pay_success-Keeps env id o key db e h = Ensures-lift (transition o.status paid) _ λ next t.
      Ensures-bind _ _
        (settle_payment-Keeps R env id (new_payment env.now id o key succeeded sim_ok)
          (λ _. moved env.now next o) (commit_reservations env.now id) order_paid _ db
          (R.pays db.orders db.order_serial db.payments id _ o
            (new_payment env.now id o key succeeded sim_ok)
            (record { now = env.now; next = next; loaded = e; legal = t; effect = refl }) refl refl
            refl h)
          (commit_reservations-Ledgered P env.now id))
        (λ _ d k. Ensures-pure _ k)

  pay_fail-Keeps :
      (env : Env) (id : ℕ) (o : OrderModel) (key : Text) (db : Db)
      → lookup id db.orders ≡ some o
      → Ledgered P db
      → Ensures db (pay_fail env id o key) (λ _ d. Ledgered P d)
  unfolding pay_fail save_order
  pay_fail-Keeps env id o key db e h = Ensures-lift (transition o.status payment_failed) _ λ next t.
      Ensures-bind _ _
        (settle_payment-Keeps R env id (new_payment env.now id o key failed sim_fail)
          (λ _. moved env.now next o) (release_reservations env.now id) order_payment_failed _ db
          (R.fails db.orders db.order_serial db.payments id _ o
            (new_payment env.now id o key failed sim_fail)
            (record { now = env.now; next = next; loaded = e; legal = t; effect = refl }) refl refl
            h)
          (release_reservations-Ledgered P env.now id))
        (λ _ d k. Ensures-pure _ k)

  charge-Keeps :
      (outcome : PayOutcome) (env : Env) (id : ℕ) (o : OrderModel) (key : Text) (db : Db)
      → lookup id db.orders ≡ some o
      → Ledgered P db
      → Ensures db (charge outcome env id o key) (λ _ d. Ledgered P d)
  unfolding charge
  charge-Keeps success env id o key db e h = pay_success-Keeps env id o key db e h
  charge-Keeps fail env id o key db e h = pay_fail-Keeps env id o key db e h
  charge-Keeps timeout env id o key db e h = Ensures-raise unavailable

  pay_loaded-Keeps :
      (env : Env) (id : ℕ) (o : OrderModel) (outcome : PayOutcome) (key : Text)
      (existing : Option PaymentModel) (db : Db)
      → lookup id db.orders ≡ some o
      → Ledgered P db
      → Ensures db (pay_loaded env id o outcome key existing) (λ _ d. Ledgered P d)
  unfolding pay_loaded
  pay_loaded-Keeps env id o outcome key (some p) db e h = Ensures-pure _ h
  pay_loaded-Keeps env id o outcome key none db e h =
      Ensures-if (is_status o.status paid || is_status o.status fulfilled) (pure (o, none))
        (charge outcome env id o key) (λ _. Ensures-pure _ h)
        (λ _. charge-Keeps outcome env id o key db e h)

  pub pay-Keeps :
      (env : Env) (user id : ℕ) (outcome : PayOutcome) (key : Text)
      → Keeps (Ledgered P) (pay env user id outcome key)
  unfolding pay
  pay-Keeps env user id outcome key = record {
    at = λ db h.
        after-load R (load_owned user id) id _ db (load_owned-Loaded user id db)
          λ o e. Ensures-read _ _ (pay_loaded-Keeps env id o outcome key _ db e h);
  }

  pub create_order-Keeps :
      (env : Env) (user : ℕ) (its : List CreateItem)
      → Keeps (Ledgered P) (create_order env user its)
  unfolding create_order insert_order
  create_order-Keeps env user [] = Keeps-raise invalid
  create_order-Keeps env user (it ∷ its) = record {
    at = λ db h.
        Ensures-bind _ _ ((hold_lines-Ledgered P env.now (it ∷ its) [] 0).at db h) λ held d k.
          Ensures-bind {R = λ _ d. Ledgered P d} _ _
            (Ensures-always _ (R.creates d.orders d.order_serial d.payments _ refl k))
            λ order d₁ k₁.
              Ensures-bind _ _ ((write_lines-Ledgered P env.now order.0 held.0).at d₁ k₁) λ _ d₂ k₂.
                Ensures-bind _ _ ((enqueue-Ledgered P env _ _ _).at d₂ k₂)
                  (λ _ d₃ k₃. Ensures-pure order k₃);
  }
