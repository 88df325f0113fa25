-- ===== src/Tests/Flowing.antt =====
-- Runs of the relay and of the payment worker in which nothing fails.
use go_commerce.Base.{◌≡◌, refl, true, List, [], ◌++◌, map, arith, where_rows}
use go_commerce.Base.Text.{codes}
use go_commerce.Domain.Errors.{ok}
use go_commerce.Domain.Order.{pending_payment, order_created}
use go_commerce.Store.Models.{EventRow, Db}
use go_commerce.Store.Rows.{Env, already_processed}
use go_commerce.Orders.Change.{find_payment}
use go_commerce.Workers.Payload.{order_id_of, as_uint}
use go_commerce.Workers.Payment.{handle_order_created}
use go_commerce.Workers.Charging.{Charged, created_order_pays}
use go_commerce.Relay.{is_pending, by_time, event_of, pending_count, relay_once}
use go_commerce.Relay.Drain.{Ascending, relay_drains}
use go_commerce.Relay.Wire.{IsAbout}
use go_commerce.Tests.{later, order_in, shop, created_message, outbox}

-- The transaction that made order 1.
abbrev creation : Env
creation = record { now = 50; uuid = codes "e1" }

created_message-IsAbout : IsAbout creation 1 order_created created_message
unfolding order_id_of as_uint
created_message-IsAbout = record {
  event_id = refl;
  event_type = refl;
  order_id = refl;
  simulate_outcome = refl;
}

created_order_pays_example :
    (d : Db) × (handle_order_created later created_message (shop pending_payment) []
      ≡ (ok tt, d, []))
    × Charged later 1 (order_in pending_payment) created_message (shop pending_payment) d
unfolding already_processed find_payment
created_order_pays_example =
    created_order_pays later creation 1 (order_in pending_payment) created_message
      (shop pending_payment) created_message-IsAbout refl refl refl refl

relay_drains_example :
    (batch : List EventRow) × (batch ≡ by_time (where_rows is_pending outbox.rows))
    × Ascending batch
    × ((relay_once outbox).0 ≡ true)
    × ((relay_once outbox).2.bus ≡ outbox.bus ++ map event_of batch)
    × (pending_count (relay_once outbox).2 ≡ 0)
unfolding pending_count is_pending
relay_drains_example = relay_drains outbox refl (omega arith)
