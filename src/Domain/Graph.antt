-- ===== src/Domain/Graph.antt =====
-- The order state machine as a step relation: reachability, terminal statuses, and the bound on
-- the length of an order's life.
use go_commerce.Base.{ℕ, suc, ◌+◌, ◌≤◌, ◌<◌, ◌≡◌, refl, ◌↔◌, ◌⊎◌, inr, List, [], ◌∷◌, arith}
use go_commerce.Domain.Errors.{ok}
use go_commerce.Domain.Order.{
  OrderStatus, pending_payment, paid, payment_failed, cancelled, fulfilled, transition,
}

-- The edges of the diagram in docs/belajar/09-commerce-reliability.md, and one that the diagram does
-- not have: the cancellation of an order whose payment failed.
infix 40 ◌⟶◌ ◌⟶*◌
pub data ◌⟶◌ : OrderStatus → OrderStatus → Type 0 where
  pay : pending_payment ⟶ paid
  fail : pending_payment ⟶ payment_failed
  cancel : pending_payment ⟶ cancelled
  retry : payment_failed ⟶ paid
  abandon : payment_failed ⟶ cancelled
  ship : paid ⟶ fulfilled

pub data ◌⟶*◌ (s : OrderStatus) : OrderStatus → Type 0 where
  here : s ⟶* s
  next : {t u : OrderStatus} → s ⟶* t → t ⟶ u → s ⟶* u

step-transition : {s t : OrderStatus} → s ⟶ t → transition s t ≡ ok t
unfolding transition
step-transition pay = refl
step-transition fail = refl
step-transition cancel = refl
step-transition retry = refl
step-transition abandon = refl
step-transition ship = refl

transition-step : (s t : OrderStatus) {u : OrderStatus} → transition s t ≡ ok u → s ⟶ t
unfolding transition
transition-step s t h = grind (arith, pay, fail, cancel, retry, abandon, ship)

-- `Transition(s, t)` succeeds exactly along these edges, and then returns `t`.
pub transition_iff_edge : (s t : OrderStatus) → (transition s t ≡ ok t) ↔ (s ⟶ t)
transition_iff_edge s t = (transition-step s t, step-transition)

abbrev pub rank : OrderStatus → ℕ
rank pending_payment = 0
rank payment_failed = 1
rank paid = 2
rank cancelled = 3
rank fulfilled = 3

step-rank : {s t : OrderStatus} → s ⟶ t → rank s < rank t
step-rank pay = omega arith
step-rank fail = omega arith
step-rank cancel = omega arith
step-rank retry = omega arith
step-rank abandon = omega arith
step-rank ship = omega arith

rank_bound : (t : OrderStatus) → rank t ≤ 3
rank_bound t = ground arith

-- Statuses that an order at `s` takes one after the other, each by a `Transition` that succeeds.
abbrev pub Life : OrderStatus → List OrderStatus → Type 0
Life s [] = Unit
Life s (t ∷ ts) = (transition s t ≡ ok t) × Life t ts

abbrev pub steps : {s t : OrderStatus} → s ⟶* t → ℕ
steps here = 0
steps (next r e) = suc (steps r)

steps-le : {s t : OrderStatus} (r : s ⟶* t) → steps r + rank s ≤ rank t
steps-le here = omega arith
steps-le (next r e) = omega (arith, steps-le r, step-rank e)

-- An order changes its status at most three times, whatever the history.
pub life_bounded : {s t : OrderStatus} (r : s ⟶* t) → steps r ≤ 3
life_bounded {t = t} r = omega (arith, steps-le r, rank_bound t)

-- From `paid` the only way on is fulfilment: a paid order is never cancelled or failed.
pub paid_stays :
    {s t : OrderStatus} → s ⟶* t → (s ≡ paid) ⊎ (s ≡ fulfilled) → (t ≡ paid) ⊎ (t ≡ fulfilled)
paid_stays here h = h
paid_stays (next r e) h = go e (paid_stays r h)
  where
    go : {u v : OrderStatus} → u ⟶ v → (u ≡ paid) ⊎ (u ≡ fulfilled) → (v ≡ paid) ⊎ (v ≡ fulfilled)
    go pay k = ground arith
    go fail k = ground arith
    go cancel k = ground arith
    go retry k = ground arith
    go abandon k = ground arith
    go ship k = inr refl
