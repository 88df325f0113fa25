-- ===== src/Orders/Charged.antt =====
-- No order is charged twice: the succeeded payments of an order are one payment of its total if it
-- is paid or fulfilled, and none otherwise.
use go_commerce.Base.{
  ℕ, ◌+◌, ◌≡◌, refl, ◌∙◌, ap, false, Option, none, some, List, [], ◌∷◌, ◌++◌, arith, ◌==◌,
  if◌then◌else◌, sum_by, sum_by-append, sym, inl, inr, Bool-cases, ==_iff,
}
use go_commerce.Domain.Order.{
  OrderStatus, pending_payment, paid, payment_failed, cancelled, fulfilled, succeeded, failed,
  transition,
}
use go_commerce.Store.Table.{Table, lookup, adjust, insert, lookup-adjust, lookup-insert, Below}
use go_commerce.Store.Models.{OrderModel, PaymentModel}
use go_commerce.Base.{◌⊎◌}
use go_commerce.Orders.Rules.{Rules, Write}

-- What a succeeded payment of the order counts for, by a measure of its amount.
abbrev pub paid_for : (ℕ → ℕ) → ℕ → PaymentModel → ℕ
paid_for f id p = if p.order_id == id then (elim p.status [ succeeded ↦ f p.amount | _ ↦ 0 ]) else 0

abbrev pub charged : (ℕ → ℕ) → ℕ → List PaymentModel → ℕ
charged f id ps = sum_by (paid_for f id) ps

abbrev pub due : (ℕ → ℕ) → Option OrderModel → ℕ
due f none = 0
due f (some o) = elim o.status [ paid ↦ f o.total | fulfilled ↦ f o.total | _ ↦ 0 ]

-- `f` is any measure of an amount: with `λ a. 1` the sum counts the payments, with `λ a. a` it
-- adds them up.
pub record ChargedOnce (f : ℕ → ℕ) (orders : Table OrderModel) (serial : ℕ) (ps : List PaymentModel)
    : Type 0 where
  pub below : Below serial orders
  pub once : (id : ℕ) → charged f id ps ≡ due f (lookup id orders)

Below-adjust :
    (n k : ℕ) (g : OrderModel → OrderModel) (t : Table OrderModel)
    → Below n t
    → Below n (adjust k g t)
Below-adjust n k g [] h = tt
Below-adjust n k g ((j, r) ∷ t) h = ground (arith, Below-adjust n k g t h.1)

Below-insert :
    (n : ℕ) (r : OrderModel) (t : Table OrderModel) → Below n t → Below (n + 1) (insert n r t)
Below-insert n r [] h = (omega arith, tt)
Below-insert n r ((j, q) ∷ t) h = (omega (arith, h.0), Below-insert n r t h.1)

lookup-Below : (n : ℕ) (t : Table OrderModel) → Below n t → lookup n t ≡ none
lookup-Below n [] h = refl
lookup-Below n ((j, r) ∷ t) h = ground (arith, lookup-Below n t h.1)

-- A new order is pending, and owes nothing yet.
pub ChargedOnce-insert :
    (f : ℕ → ℕ) (orders : Table OrderModel) (serial : ℕ) (ps : List PaymentModel) (o : OrderModel)
    → o.status ≡ pending_payment
    → ChargedOnce f orders serial ps
    → ChargedOnce f (insert serial o orders) (serial + 1) ps
ChargedOnce-insert f orders serial ps o e h = record {
  below = Below-insert serial o orders h.below;
  once = λ id.
      h.once id
      ∙ ground (arith, lookup-insert serial id o orders, lookup-Below serial orders h.below, e);
}

-- Writing an order that owes what it owed.
pub ChargedOnce-adjust :
    (f : ℕ → ℕ) (orders : Table OrderModel) (serial : ℕ) (ps : List PaymentModel) (k : ℕ)
    (g : OrderModel → OrderModel) (o : OrderModel)
    → lookup k orders ≡ some o
    → due f (some (g o)) ≡ due f (some o)
    → ChargedOnce f orders serial ps
    → ChargedOnce f (adjust k g orders) serial ps
ChargedOnce-adjust f orders serial ps k g o e d h = record {
  below = Below-adjust serial k g orders h.below;
  once = λ id. h.once id ∙ due-adjust id;
}
  where
    due-adjust : (id : ℕ) → due f (lookup id orders) ≡ due f (lookup id (adjust k g orders))
    due-adjust id = elim (Bool-cases (k == id)) [
      | inl t ↦ rw lookup-adjust (rw t (rw (← (==_iff k id).0 t) (rw e (sym d))))
      | inr t ↦ rw lookup-adjust (rw t)
    ]

-- Writing an order together with a payment that changes what it owes by as much.
pub ChargedOnce-pay :
    (f : ℕ → ℕ) (orders : Table OrderModel) (serial : ℕ) (ps : List PaymentModel) (k : ℕ)
    (g : OrderModel → OrderModel) (o : OrderModel) (pay : PaymentModel)
    → lookup k orders ≡ some o
    → pay.order_id ≡ k
    → due f (some (g o)) ≡ due f (some o) + paid_for f k pay
    → ChargedOnce f orders serial ps
    → ChargedOnce f (adjust k g orders) serial (ps ++ pay ∷ [])
ChargedOnce-pay f orders serial ps k g o pay e ek d h = record {
  below = Below-adjust serial k g orders h.below;
  once = λ id. step id;
}
  where
    other : (id : ℕ) → (k == id) ≡ false → paid_for f id pay ≡ 0
    other id t = ground arith

    step : (id : ℕ) → charged f id (ps ++ pay ∷ []) ≡ due f (lookup id (adjust k g orders))
    step id = elim (Bool-cases (k == id)) [
      | inl t ↦ rw lookup-adjust (
          rw t (
            rw (← (==_iff k id).0 t) (
              rw e (
                omega
                  (arith, sum_by-append (paid_for f k) ps (pay ∷ []), h.once k, ap (due f) e, d)))))
      | inr t ↦
          rw lookup-adjust (
            rw t
              (omega (arith, sum_by-append (paid_for f id) ps (pay ∷ []), h.once id, other id t)))
    ]

-- `ChargedOnce` obeys the rules.
due-pay :
    (f : ℕ → ℕ) (os : Table OrderModel) (id : ℕ) (g : OrderModel → OrderModel) (o : OrderModel)
    (pay : PaymentModel)
    → Write os id paid g o
    → pay.order_id ≡ id
    → pay.status ≡ succeeded
    → pay.amount ≡ o.total
    → due f (some (g o)) ≡ due f (some o) + paid_for f id pay
unfolding transition
due-pay f os id g o pay w ek es ea = rw (w.effect) (ground (arith, w.legal))

due-fail :
    (f : ℕ → ℕ) (os : Table OrderModel) (id : ℕ) (g : OrderModel → OrderModel) (o : OrderModel)
    (pay : PaymentModel)
    → Write os id payment_failed g o
    → pay.status ≡ failed
    → due f (some (g o)) ≡ due f (some o) + paid_for f id pay
unfolding transition
due-fail f os id g o pay w es = rw (w.effect) (ground (arith, w.legal))

due-same :
    (f : ℕ → ℕ) (os : Table OrderModel) (id : ℕ) (to : OrderStatus) (g : OrderModel → OrderModel)
    (o : OrderModel)
    → (to ≡ cancelled) ⊎ (to ≡ fulfilled)
    → Write os id to g o
    → due f (some (g o)) ≡ due f (some o)
unfolding transition
due-same f os id to g o k w = rw (w.effect) (ground (arith, w.legal))

pub ChargedOnce-Rules : (f : ℕ → ℕ) → Rules (ChargedOnce f)
ChargedOnce-Rules f = record {
  creates = ChargedOnce-insert f;
  cancels = λ os n ps id g o w h.
      ChargedOnce-adjust f os n ps id g o w.loaded (due-same f os id cancelled g o (inl refl) w) h;
  fulfills = λ os n ps id g o w h.
      ChargedOnce-adjust f os n ps id g o w.loaded (due-same f os id fulfilled g o (inr refl) w) h;
  pays = λ os n ps id g o pay w ek es ea h.
      ChargedOnce-pay f os n ps id g o pay w.loaded ek (due-pay f os id g o pay w ek es ea) h;
  fails = λ os n ps id g o pay w ek es h.
      ChargedOnce-pay f os n ps id g o pay w.loaded ek (due-fail f os id g o pay w es) h;
}
