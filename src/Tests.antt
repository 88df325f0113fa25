-- ===== src/Tests.antt =====
-- Small databases, and runs of the model on them.
use go_commerce.Base.{false, none, some, [], ◌∷◌}
use go_commerce.Base.Int.{pos}
use go_commerce.Base.Text.{Text, codes}
use go_commerce.Domain.Order.{OrderStatus, pending_payment, held, order_created, order_cancelled}
use go_commerce.Store.Table.{Table}
use go_commerce.Store.Models.{
  Product, OrderModel, ReservationModel, idr, float64, nil, Payload, EventRow, Db,
}
use go_commerce.Store.Rows.{Env}
use go_commerce.Orders.Create.{CreateItem}
use go_commerce.Workers.Payload.{Message}
use go_commerce.Relay.{Outbox}
mod Access
mod Wishes
mod Searching
mod Booting
mod Flowing
mod Operating
mod Selling
mod Notifying
mod Histories
mod Ordering
mod Consuming
mod Streams

abbrev pub env : Env
env = record { now = 100; uuid = codes "u1" }

abbrev pub later : Env
later = record { now = 160; uuid = codes "u2" }

abbrev pub rice : Product
rice = record {
  user_id = 3;
  name = codes "rice";
  description = [];
  price = 5;
  stock = 10;
  updated_at = 0;
  is_deleted = false;
}

abbrev pub order_in : OrderStatus → OrderModel
order_in s = record {
  user_id = 7;
  status = s;
  total = 10;
  currency = idr;
  version = 1;
  created_at = 50;
  updated_at = 50;
}

abbrev pub two_held : ReservationModel
two_held = record {
  id = 1;
  order_id = 1;
  product_id = 1;
  qty = 2;
  status = held;
  created_at = 50;
  updated_at = 50;
}

-- Ten units on the shelf, and order 1 in status `s` with a reservation of two more.
abbrev pub shop : OrderStatus → Db
shop s = record {
  products = (1, rice) ∷ [];
  orders = (1, order_in s) ∷ [];
  order_serial = 2;
  items = [];
  reservations = two_held ∷ [];
  reservation_serial = 2;
  payments = [];
  idempotency = [];
  outbox = [];
  ledger = [];
  inbox = [];
}

abbrev pub payload : Payload
payload = record {
  order_id = float64 1;
  user_id = 7;
  status = pending_payment;
  total = some 10;
  simulate_outcome = nil;
}

abbrev pub created_message : Message
created_message = record {
  event_id = codes "e1";
  event_type = order_created;
  payload = payload;
  raw_body = codes "{}";
}

abbrev pub cancelled_message : Message
cancelled_message = record {
  event_id = codes "e2";
  event_type = order_cancelled;
  payload = payload;
  raw_body = codes "{}";
}

abbrev pub three_rice : CreateItem
three_rice = record { product_id = 1; qty = pos 3 }

abbrev pub row : EventRow
row = record {
  id = 1;
  event_id = codes "e1";
  aggregate_id = 1;
  event_type = order_created;
  payload = payload;
  created_at = 50;
  published_at = none;
}

abbrev pub outbox : Outbox
outbox = record {
  rows = row ∷ record row { id = 2; event_id = codes "e2" } ∷ [];
  bus = [];
  replies = [];
  now = 100;
}

abbrev pub catalogue : Table Product
catalogue = (1, rice) ∷ (2, rice) ∷ (4, rice) ∷ []
