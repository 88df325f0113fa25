-- ===== src/Domain/Order.antt =====
-- internal/domain/order.go: the order state machine. A status that the code stores in a text
-- column is one of the constants of the file, so the constants are constructors.
use go_commerce.Base.{Bool, true, false, if◌then◌else◌}
use go_commerce.Base.Text.{Text}
use go_commerce.Domain.Errors.{Result, ok, err, conflict}

pub data OrderStatus : Type 0 where
  pending_payment paid payment_failed cancelled fulfilled : OrderStatus

pub data ReservationStatus : Type 0 where
  held committed released : ReservationStatus

-- `PaymentPending` is never stored: a payment row is created with its outcome.
pub data PaymentStatus : Type 0 where
  pending succeeded failed : PaymentStatus

-- The event types of the bus; `other_event` is any text that is none of them.
pub data EventType : Type 0 where
  order_created order_paid order_payment_failed order_cancelled order_fulfilled : EventType
  product_created product_updated product_deleted : EventType
  other_event : Text → EventType

-- `allowedTransitions`, read as `CanTransition` reads the two maps.
unfoldable pub can_transition : OrderStatus → OrderStatus → Bool
can_transition pending_payment paid = true
can_transition pending_payment payment_failed = true
can_transition pending_payment cancelled = true
can_transition payment_failed paid = true
can_transition payment_failed cancelled = true
can_transition paid fulfilled = true
can_transition _ _ = false

unfoldable pub transition : OrderStatus → OrderStatus → Result OrderStatus
unfolding can_transition
transition from to = if can_transition from to then ok to else err conflict

-- `order.Status == status`
unfoldable pub is_status : OrderStatus → OrderStatus → Bool
is_status pending_payment pending_payment = true
is_status paid paid = true
is_status payment_failed payment_failed = true
is_status cancelled cancelled = true
is_status fulfilled fulfilled = true
is_status _ _ = false
