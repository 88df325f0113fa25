-- ===== src/Tests/Histories.antt =====
-- Runs of histories of the commerce core.
use go_commerce.Base.{
  ℕ, ◌+◌, ◌≡◌, refl, ◌≤◌, true, false, some, [], ◌∷◌, arith, ◌==◌, Bool-cases, inl, inr, ◌⊎◌,
}
use go_commerce.Domain.Order.{OrderStatus, pending_payment, paid, fulfilled}
use go_commerce.Store.Table.{lookup}
use go_commerce.Store.Models.{OrderModel, Db}
use go_commerce.Orders.Stock.{stock_of}
use go_commerce.Orders.Frame.{Ledgered}
use go_commerce.Orders.Units.{Stocked}
use go_commerce.Orders.Charged.{ChargedOnce, due}
use go_commerce.Orders.Evolution.{Evolved}
use go_commerce.Commerce.Steps.{creates, charges, restocks, perform, Reach, here, next}
use go_commerce.Orders.Balance.{Balanced}
use go_commerce.Commerce.Stock.{history_conserves, history_balances}
use go_commerce.Commerce.Histories.{history_charges_once, history_follows_graph, history_keeps_paid}
use go_commerce.Tests.{env, later, order_in, shop, created_message, cancelled_message, three_rice}

-- Order 1 is charged, another is made while its third statement fails, and made again, and a
-- cancellation that never happened is delivered.
abbrev history : (start : Db) → Db
history start = perform later [] (restocks cancelled_message) (
    perform later [] (creates 7 (three_rice ∷ [])) (
      perform later (false ∷ false ∷ true ∷ []) (creates 7 (three_rice ∷ []))
        (perform env [] (charges created_message) start)))

history_of : (start : Db) → Reach start (history start)
history_of start =
    next
      (next
        (next (next here env [] (charges created_message)) later (false ∷ false ∷ true ∷ [])
          (creates 7 (three_rice ∷ [])))
        later [] (creates 7 (three_rice ∷ [])))
      later [] (restocks cancelled_message)

shop-Stocked : (s : OrderStatus) → Stocked 1 12 (shop s)
unfolding stock_of
shop-Stocked s = record {
  distinct = (refl, tt);
  below = (omega arith, tt);
  linked = (refl, tt);
  exists = refl;
  count = refl;
}

shop-ChargedOnce : (f : ℕ → ℕ) → Ledgered (ChargedOnce f) (shop pending_payment)
shop-ChargedOnce f = record { below = (omega arith, tt); once = λ id. nothing_due id }
  where
    nothing_due : (id : ℕ) → 0 ≡ due f (lookup id (shop pending_payment).orders)
    nothing_due id = elim (Bool-cases (1 == id)) [ inl e ↦ rw e refl | inr e ↦ rw e refl ]

history_conserves_example : Stocked 1 12 (history (shop pending_payment))
history_conserves_example =
    history_conserves 1 12 (history_of (shop pending_payment)) (shop-Stocked pending_payment)

shop-Balanced : (s : OrderStatus) → Balanced 1 10 (shop s)
unfolding stock_of
shop-Balanced s = record { exists = refl; sums = refl }

history_balances_example : Balanced 1 10 (history (shop pending_payment))
history_balances_example =
    history_balances 1 10 (history_of (shop pending_payment)) (shop-Balanced pending_payment)

history_charges_once_example : Ledgered (ChargedOnce (λ a. a)) (history (shop pending_payment))
history_charges_once_example =
    history_charges_once (λ a. a) (history_of (shop pending_payment)) (shop-ChargedOnce (λ a. a))

history_follows_graph_example :
    Evolved (order_in pending_payment) 1 (history (shop pending_payment)).orders
history_follows_graph_example =
    history_follows_graph 1 (order_in pending_payment) (history_of (shop pending_payment)) refl

history_keeps_paid_example :
    (now : OrderModel) × (lookup 1 (history (shop paid)).orders ≡ some now)
    × ((now.status ≡ paid) ⊎ (now.status ≡ fulfilled))
    × (now.version ≤ 1 + 3)
history_keeps_paid_example = history_keeps_paid 1 (order_in paid) (history_of (shop paid)) refl refl
