-- ===== src/Orders/StockRules.antt =====
-- An invariant of the stock, its reservations and its ledger, by what the three kinds of writes to
-- them do: reservations are released, are committed, or an order is created.
use go_commerce.Base.{ℕ, List}
use go_commerce.Store.Table.{Table}
use go_commerce.Store.Models.{Product, ReservationModel, Entry, Db}
use go_commerce.Store.Ensures.{Keeps}
use go_commerce.Store.Rows.{Env}
use go_commerce.Orders.Stock.{release_reservations, commit_reservations}
use go_commerce.Orders.Create.{CreateItem, create_order}

abbrev pub StockInvariant : Type 1
StockInvariant = Table Product → List ReservationModel → ℕ → List Entry → Type 0

abbrev pub On : StockInvariant → Db → Type 0
On P db = P db.products db.reservations db.reservation_serial db.ledger

pub record StockRules (P : StockInvariant) : Type 0 where
  pub releases : (now order : ℕ) → Keeps (On P) (release_reservations now order)
  pub commits : (now order : ℕ) → Keeps (On P) (commit_reservations now order)
  pub creates :
      (env : Env) (user : ℕ) (its : List CreateItem) → Keeps (On P) (create_order env user its)
