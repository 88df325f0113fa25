-- ===== src/Orders/Stocking.antt =====
-- The conservation of units obeys the rules of a stock invariant.
use go_commerce.Base.{ℕ, List, [], ◌∷◌, arith}
use go_commerce.Domain.Errors.{invalid}
use go_commerce.Store.Models.{Db}
use go_commerce.Store.Ensures.{
  Ensures, Ensures-pure, Ensures-bind, Ensures-always, Keeps, Keeps-raise, Keeps-exec,
}
use go_commerce.Store.Rows.{Env, enqueue}
use go_commerce.Orders.Create.{CreateItem, Line, insert_order, create_order}
use go_commerce.Orders.Units.{
  StockedIn, Stocked, release_reservations-Stocked, commit_reservations-Stocked,
}
use go_commerce.Orders.Holding.{Holding, hold_lines-Holding, write_lines-Stocked}
use go_commerce.Orders.StockRules.{StockRules}

module _ (p n : ℕ) where
  insert_order-Holding :
      (now user total : ℕ) (lns : List Line) (db : Db)
      → Holding p n lns db
      → Ensures db (insert_order now user total) (λ _ d. Holding p n lns d)
  unfolding insert_order
  insert_order-Holding now user total lns db h =
      Ensures-always _
        (record { others = h.others; stocked = h.stocked; sum = h.sum; lines = h.lines })

  pub create_order-Stocked :
      (env : Env) (user : ℕ) (its : List CreateItem)
      → Keeps (Stocked p n) (create_order env user its)
  unfolding create_order enqueue
  create_order-Stocked env user [] = Keeps-raise invalid
  create_order-Stocked env user (it ∷ its) = record {
    at = λ db h.
        Ensures-bind _ _
          (hold_lines-Holding env.now p n (it ∷ its) [] 0 db
            (record { others = n; stocked = h; sum = omega arith; lines = tt }))
          λ held d k.
            Ensures-bind _ _ (insert_order-Holding env.now user held.1 held.0 d k) λ order d₁ k₁.
              Ensures-bind _ _ (write_lines-Stocked env.now order.0 p n held.0 d₁ k₁) λ _ d₂ k₂.
                Ensures-bind _ _ ((Keeps-exec {P = Stocked p n} _ (λ db h. h)).at d₂ k₂)
                  (λ _ d₃ k₃. Ensures-pure order k₃);
  }

pub Stocked-StockRules : (p n : ℕ) → StockRules (λ ps rs k _. StockedIn p n ps rs k)
Stocked-StockRules p n = record {
  releases = λ now order. release_reservations-Stocked now order p n;
  commits = λ now order. commit_reservations-Stocked now order p n;
  creates = create_order-Stocked p n;
}
