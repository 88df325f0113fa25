-- ===== src/Workers/Payload.antt =====
-- `asUint` of internal/worker/payment/handler.go (internal/worker/inventory has the same): the
-- order id of a payload. A JSON number arrives as `float64`; it is modelled where it is a natural
-- number below 2 ^ 64.
use go_commerce.Base.{ℕ, zero, suc, ◌-◌, ◌%◌, ◌^◌, Option, none, some}
use go_commerce.Base.Int.{ℤ, pos, negsuc}
use go_commerce.Base.Text.{Text}
use go_commerce.Domain.Order.{EventType}
use go_commerce.Store.Models.{AnyValue, float64, int, int64, uint, uint64, text, nil, Payload, Db}
use go_commerce.Domain.Errors.{Result, err, invalid}
use go_commerce.Store.Tx.{Tx, Faults, transaction}

-- `kafka.Message`: the decoded event, or the zero event with an empty id.
pub record Message : Type 0 where
  pub event_id : Text
  pub event_type : EventType
  pub payload : Payload
  pub raw_body : Text

-- `uint(n)` of a signed integer.
unfoldable pub to_uint : ℤ → ℕ
to_uint (pos n) = n % 2 ^ 64
to_uint (negsuc n) = (2 ^ 64 - 1) - n % 2 ^ 64

unfoldable pub as_uint : AnyValue → Option ℕ
unfolding to_uint
as_uint (float64 n) = some (n % 2 ^ 64)
as_uint (int n) = some (to_uint n)
as_uint (int64 n) = some (to_uint n)
as_uint (uint n) = some n
as_uint (uint64 n) = some n
as_uint (text s) = none
as_uint nil = none

-- `orderID, ok := asUint(…); if !ok || orderID == 0`
unfoldable pub order_id_of : Message → Option ℕ
unfolding as_uint
order_id_of msg = elim (as_uint msg.payload.order_id) [
  | none ↦ none
  | some n ↦ elim n [ zero ↦ none | suc m ↦ some (suc m) ]
]

-- `if !ok || orderID == 0 { return ErrInvalid }`, else the transaction on the order.
abbrev pub for_order : {A : Type 0} → Option ℕ → (ℕ → Tx A) → Db → Faults → Result A × Db × Faults
for_order none f db fs = (err invalid, db, fs)
for_order (some id) f db fs = transaction (f id) db fs
