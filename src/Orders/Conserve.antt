-- ===== src/Orders/Conserve.antt =====
-- Every operation of the order repository keeps an invariant of the stock that obeys the rules.
use go_commerce.Base.{ℕ, Option, none, some}
use go_commerce.Base.Text.{Text}
use go_commerce.Domain.Errors.{unavailable}
use go_commerce.Domain.Order.{EventType}
use go_commerce.Store.Models.{OrderModel, PaymentModel, Payload}
use go_commerce.Store.Tx.{Tx, pure}
use go_commerce.Store.Ensures.{
  Keeps, Keeps-pure, Keeps-raise, Keeps-if, Keeps-exec, Keeps-insert, keeps_rules,
}
use go_commerce.Store.Rows.{Env, enqueue}
use go_commerce.Orders.StockRules.{StockInvariant, On, StockRules}
use go_commerce.Orders.Stock.{release_reservations, commit_reservations}
use go_commerce.Orders.Change.{
  load_owned, load_any, save_order, cancel_locked, cancel, cancel_system, PayOutcome, success, fail,
  timeout, insert_payment, settle_payment, pay_fail, pay_success, charge, pay_loaded, pay, fulfill,
}

module _ {P : StockInvariant} (R : StockRules P) where
  pub release_reservations-On : (now order : ℕ) → Keeps (On P) (release_reservations now order)
  release_reservations-On now order = R.releases now order

  pub commit_reservations-On : (now order : ℕ) → Keeps (On P) (commit_reservations now order)
  commit_reservations-On now order = R.commits now order

  pub enqueue-On :
      (env : Env) (id : ℕ) (t : EventType) (pl : Payload) → Keeps (On P) (enqueue env id t pl)
  unfolding enqueue
  enqueue-On env id t pl = Keeps-exec _ (λ db h. h)

  load_owned-On : (user id : ℕ) → Keeps (On P) (load_owned user id)
  unfolding load_owned
  load_owned-On user id = search keeps_rules

  load_any-On : (id : ℕ) → Keeps (On P) (load_any id)
  unfolding load_any
  load_any-On id = search keeps_rules

  save_order-On : (id : ℕ) (o : OrderModel) → Keeps (On P) (save_order id o)
  unfolding save_order
  save_order-On id o = Keeps-exec _ (λ db h. h)

  pub insert_payment-On : (pay : PaymentModel) → Keeps (On P) (insert_payment pay)
  unfolding insert_payment
  insert_payment-On pay = Keeps-insert _ _ (λ db h. h)

  pub settle_payment-On :
      {A : Type 0} (env : Env) (id : ℕ) (pay : PaymentModel) (write : Tx (Unit {0})) (stock : Tx A)
      (t : EventType) (pl : Payload)
      → Keeps (On P) write
      → Keeps (On P) stock
      → Keeps (On P) (settle_payment env id pay write stock t pl)
  unfolding settle_payment
  settle_payment-On env id pay write stock t pl hw hs =
      search (keeps_rules, insert_payment-On, enqueue-On)

  ruleset order_rules = (
    keeps_rules, enqueue-On, load_owned-On, load_any-On, save_order-On, settle_payment-On,
    release_reservations-On, commit_reservations-On,
  )

  cancel_locked-On :
      (env : Env) (id : ℕ) (load : Tx OrderModel)
      → Keeps (On P) load
      → Keeps (On P) (cancel_locked env id load)
  unfolding cancel_locked
  cancel_locked-On env id load h = search order_rules depth 12

  pub cancel-On : (env : Env) (user id : ℕ) → Keeps (On P) (cancel env user id)
  unfolding cancel
  cancel-On env user id = cancel_locked-On env id (load_owned user id) (load_owned-On user id)

  pub cancel_system-On : (env : Env) (id : ℕ) → Keeps (On P) (cancel_system env id)
  unfolding cancel_system
  cancel_system-On env id = cancel_locked-On env id (load_any id) (load_any-On id)

  pay_fail-On :
      (env : Env) (id : ℕ) (o : OrderModel) (key : Text) → Keeps (On P) (pay_fail env id o key)
  unfolding pay_fail
  pay_fail-On env id o key = search order_rules depth 12

  pay_success-On :
      (env : Env) (id : ℕ) (o : OrderModel) (key : Text) → Keeps (On P) (pay_success env id o key)
  unfolding pay_success
  pay_success-On env id o key = search order_rules depth 12

  charge-On :
      (outcome : PayOutcome) (env : Env) (id : ℕ) (o : OrderModel) (key : Text)
      → Keeps (On P) (charge outcome env id o key)
  unfolding charge
  charge-On success env id o key = pay_success-On env id o key
  charge-On fail env id o key = pay_fail-On env id o key
  charge-On timeout env id o key = Keeps-raise unavailable

  pay_loaded-On :
      (env : Env) (id : ℕ) (o : OrderModel) (outcome : PayOutcome) (key : Text)
      (existing : Option PaymentModel)
      → Keeps (On P) (pay_loaded env id o outcome key existing)
  unfolding pay_loaded
  pay_loaded-On env id o outcome key (some e) = Keeps-pure (o, some e)
  pay_loaded-On env id o outcome key none =
      Keeps-if _ (pure (o, none)) (charge outcome env id o key) (Keeps-pure (o, none))
        (charge-On outcome env id o key)

  pub pay-On :
      (env : Env) (user id : ℕ) (outcome : PayOutcome) (key : Text)
      → Keeps (On P) (pay env user id outcome key)
  unfolding pay
  pay-On env user id outcome key = search (order_rules, pay_loaded-On) depth 8

  pub fulfill-On : (env : Env) (id : ℕ) → Keeps (On P) (fulfill env id)
  unfolding fulfill
  fulfill-On env id = search order_rules depth 12
