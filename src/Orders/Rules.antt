-- ===== src/Orders/Rules.antt =====
-- An invariant of the orders and their payments, by what the four kinds of writes to them do: an
-- order is created, is cancelled or fulfilled, is paid, or fails to be paid. `g` is the write to the
-- row, of which only its effect on the loaded row `o` is known.
use go_commerce.Base.{ℕ, ◌+◌, ◌≡◌, some, List, [], ◌∷◌, ◌++◌}
use go_commerce.Domain.Errors.{ok}
use go_commerce.Domain.Order.{
  OrderStatus, pending_payment, paid, payment_failed, cancelled, fulfilled, succeeded, failed,
  transition,
}
use go_commerce.Store.Table.{Table, lookup, adjust, insert}
use go_commerce.Store.Models.{OrderModel, PaymentModel}
use go_commerce.Orders.Change.{moved}

abbrev pub Invariant : Type 1
Invariant = Table OrderModel → ℕ → List PaymentModel → Type 0

-- The write `g` moves the order `o`, found under `id`, along the transition to `to`.
pub record Write (os : Table OrderModel) (id : ℕ) (to : OrderStatus) (g : OrderModel → OrderModel)
    (o : OrderModel) : Type 0 where
  pub now : ℕ
  pub next : OrderStatus
  pub loaded : lookup id os ≡ some o
  pub legal : transition o.status to ≡ ok next
  pub effect : g o ≡ moved now next o

pub record Rules (P : Invariant) : Type 0 where
  pub creates :
      (os : Table OrderModel) (n : ℕ) (ps : List PaymentModel) (o : OrderModel)
      → o.status ≡ pending_payment
      → P os n ps
      → P (insert n o os) (n + 1) ps
  pub cancels :
      (os : Table OrderModel) (n : ℕ) (ps : List PaymentModel) (id : ℕ)
      (g : OrderModel → OrderModel) (o : OrderModel)
      → Write os id cancelled g o
      → P os n ps
      → P (adjust id g os) n ps
  pub fulfills :
      (os : Table OrderModel) (n : ℕ) (ps : List PaymentModel) (id : ℕ)
      (g : OrderModel → OrderModel) (o : OrderModel)
      → Write os id fulfilled g o
      → P os n ps
      → P (adjust id g os) n ps
  pub pays :
      (os : Table OrderModel) (n : ℕ) (ps : List PaymentModel) (id : ℕ)
      (g : OrderModel → OrderModel) (o : OrderModel) (pay : PaymentModel)
      → Write os id paid g o
      → pay.order_id ≡ id
      → pay.status ≡ succeeded
      → pay.amount ≡ o.total
      → P os n ps
      → P (adjust id g os) n (ps ++ pay ∷ [])
  pub fails :
      (os : Table OrderModel) (n : ℕ) (ps : List PaymentModel) (id : ℕ)
      (g : OrderModel → OrderModel) (o : OrderModel) (pay : PaymentModel)
      → Write os id payment_failed g o
      → pay.order_id ≡ id
      → pay.status ≡ failed
      → P os n ps
      → P (adjust id g os) n (ps ++ pay ∷ [])
