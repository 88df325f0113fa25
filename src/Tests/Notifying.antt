-- ===== src/Tests/Notifying.antt =====
-- Runs of the fan-out and of an event on its way to a worker.
use go_commerce.Base.{
  ℕ, ◌≤◌, ◌≡◌, refl, Bool, not, Option, some, [], ◌∷◌, ◌++◌, arith, ◌==◌, where_rows,
}
use go_commerce.Base.Text.{Text, codes}
use go_commerce.Domain.Order.{pending_payment, order_created}
use go_commerce.Store.Models.{float64}
use go_commerce.Store.Tx.{done}
use go_commerce.Store.Rows.{enqueue}
use go_commerce.Orders.Create.{order_payload}
use go_commerce.Relay.{Event, event_of}
use go_commerce.Relay.Wire.{row_of, enqueued, fetch, body_of, IsAbout, enqueued_event_is_read}
use go_commerce.Notify.{Hub, broadcast, fetched, fetch_failed, Notifier}
use go_commerce.Notify.Fanout.{notify, sent_to, broadcast_keeps_reached, waits_are_bounded}
use go_commerce.Tests.{env, order_in, shop, created_message}

abbrev hub : Hub
hub = record { clients = 1 ∷ 2 ∷ 3 ∷ []; delivered = [] }

-- The connection of client 2 is broken.
abbrev reaches : ℕ → Bool
reaches c = not (c == 2)

broadcast_keeps_reached_example :
    ((broadcast reaches created_message hub).clients ≡ where_rows reaches hub.clients)
    × ((broadcast reaches created_message hub).delivered
        ≡ hub.delivered ++ sent_to reaches created_message (where_rows reaches hub.clients))
broadcast_keeps_reached_example = broadcast_keeps_reached reaches created_message hub

abbrev notifier : Notifier
notifier = record { hub = hub; backoff = 1 }

waits_are_bounded_example :
    (1
      ≤ (notify
          ((reaches, fetch_failed) ∷ (reaches, fetched created_message) ∷ [])
          notifier).backoff)
    × ((notify ((reaches, fetch_failed) ∷ (reaches, fetched created_message) ∷ []) notifier).backoff
        ≤ 32)
waits_are_bounded_example =
    waits_are_bounded ((reaches, fetch_failed) ∷ (reaches, fetched created_message) ∷ []) notifier
      refl

abbrev event : Event
unfolding event_of
event =
    event_of
      (row_of env 1 order_created (order_in pending_payment) (some 10) (shop pending_payment))

-- A library for one event.
abbrev marshal : Event → Text
marshal e = codes "event"

abbrev read_back : Event
unfolding event_of
read_back = record event { payload = record event.payload { order_id = float64 1 } }

abbrev unmarshal : Text → Option Event
unfolding event_of
unmarshal t = some read_back

enqueued_event_is_read_example :
    (enqueue env 1 order_created
        (order_payload 1 (order_in pending_payment) (some 10))
        (shop pending_payment)
        []
      ≡ done tt
          (enqueued env 1 order_created (order_in pending_payment) (some 10) (shop pending_payment))
          [])
    × IsAbout env 1 order_created (fetch marshal unmarshal (body_of marshal unmarshal event))
unfolding event_of
enqueued_event_is_read_example =
    enqueued_event_is_read marshal unmarshal env 0 order_created (order_in pending_payment)
      (some 10) (shop pending_payment) (omega arith)
      (
        read_back,
        refl,
        record {
          id = refl;
          event_type = refl;
          order_id = λ n h e. cc;
          simulate_outcome = λ h. refl;
        },
      )
