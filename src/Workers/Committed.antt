-- ===== src/Workers/Committed.antt =====
-- cmd/worker/main.go: what one turn of the loop has done for the message it fetched, where it commits
-- that message.
use go_commerce.Base.{ℕ, suc, ◌≤◌, ◌≡◌, refl, Bool, true, false, some, if◌then◌else◌, arith}
use go_commerce.Base.Text.{Text, is_empty}
use go_commerce.Domain.Errors.{Result, ok, err}
use go_commerce.Domain.Order.{
  EventType, order_created, order_paid, order_payment_failed, order_cancelled, order_fulfilled,
}
use go_commerce.Store.Models.{payment, inventory, Db}
use go_commerce.Store.Tx.{Faults}
use go_commerce.Store.Rows.{Env}
use go_commerce.Workers.Payload.{Message}
use go_commerce.Workers.Payment.{handle_order_created}
use go_commerce.Workers.Inventory.{moves_stock, handle_stock}
use go_commerce.Workers.Audit.{Sinks}
use go_commerce.Workers.Dispatch.{
  Wiring, is_ok, route_commerce, routed, World, audited, handle_message, fetched, Loop, settled,
  turn,
}
use go_commerce.Workers.Recorded.{Handled, acknowledged_is_kept}
use go_commerce.Workers.Redelivery.{Processed, charge_ok, stock_ok}

-- The processor that cmd/worker puts together has all its parts; `write` is what the writing of JSON
-- makes of a text.
abbrev pub wired : (Text → Text) → Wiring
wired write = record { has_payment = true; has_inventory = true; dlq = some write }

-- The handler of the type of the event has claimed the event.
abbrev pub Effected : Text → Db → EventType → Type 0
Effected id db order_created = Processed payment id db
Effected id db order_paid = Processed inventory id db
Effected id db order_payment_failed = Processed inventory id db
Effected id db order_cancelled = Processed inventory id db
Effected id db order_fulfilled = Processed inventory id db
Effected id db _ = Unit

is_ok-ok : {A : Type 0} (r : Result A) → is_ok r ≡ true → (a : A) × (r ≡ ok a)
is_ok-ok (ok a) h = (a, refl)
is_ok-ok (err e) h = absurd (cc)

module _ (env : Env) (msg : Message) (db : Db) (fs : Faults) where
  stock-Effected :
      moves_stock msg.event_type ≡ true
      → is_ok (handle_stock env msg db fs).0 ≡ true
      → Processed inventory msg.event_id (handle_stock env msg db fs).1
  stock-Effected m h =
      let r = is_ok-ok (handle_stock env msg db fs).0 h in stock_ok env msg db fs r.0 m r.1

  route-Effected :
      (write : Text → Text) (t : EventType)
      → msg.event_type ≡ t
      → (route_commerce (wired write) env msg t db fs).0 ≡ true
      → Effected msg.event_id (route_commerce (wired write) env msg t db fs).1 t
  unfolding route_commerce moves_stock
  route-Effected write order_created e h =
      charge_ok env msg db fs ((is_ok-ok (handle_order_created env msg db fs).0 h).1)
  route-Effected write order_paid e h = stock-Effected (rw e refl) h
  route-Effected write order_payment_failed e h = stock-Effected (rw e refl) h
  route-Effected write order_cancelled e h = stock-Effected (rw e refl) h
  route-Effected write order_fulfilled e h = stock-Effected (rw e refl) h
  route-Effected write _ e h = tt

-- What a turn that commits a message has done for it.
abbrev pub Past : (Text → Text) → Message → World → Type 0
Past write msg s =
    Handled (some write) msg s.sinks
    × (is_empty msg.event_id ≡ false → Effected msg.event_id s.db msg.event_type)

audited-Past :
    (write : Text → Text) (env : Env) (msg : Message) (r : Bool × Db × Faults) (s : Sinks)
    → (r.0 ≡ true → is_empty msg.event_id ≡ false → Effected msg.event_id r.1 msg.event_type)
    → (audited (wired write) env msg r s).0 ≡ true
    → Past write msg (audited (wired write) env msg r s).1
audited-Past write env msg (false, d, gs) s k h = absurd (cc)
audited-Past write env msg (true, d, gs) s k h =
    (acknowledged_is_kept (some write) env.now msg s h, k refl)

handle_message-Past :
    (write : Text → Text) (env : Env) (msg : Message) (s : World)
    → (handle_message (wired write) env msg s).0 ≡ true
    → Past write msg (handle_message (wired write) env msg s).1
unfolding handle_message
handle_message-Past write env msg s h =
    audited-Past write env msg (routed (wired write) env msg s.db s.faults) s.sinks effected h
  where
    effected :
        (routed (wired write) env msg s.db s.faults).0 ≡ true
        → is_empty msg.event_id ≡ false
        → Effected msg.event_id (routed (wired write) env msg s.db s.faults).1 msg.event_type
    effected r e = by_id (is_empty msg.event_id) e r
      where
        by_id :
            (b : Bool)
            → b ≡ false
            → (if b
                then (true, s.db, s.faults)
                else route_commerce (wired write) env msg msg.event_type s.db s.faults).0
              ≡ true
            → Effected msg.event_id
                (if b
                  then (true, s.db, s.faults)
                  else route_commerce (wired write) env msg msg.event_type s.db s.faults).1
                msg.event_type
        by_id true f q = absurd (cc)
        by_id false f q = route-Effected env msg s.db s.faults write msg.event_type refl q

settled-Past :
    (write : Text → Text) (n : ℕ) (reaches : Bool) (old : ℕ) (msg : Message) (r : Bool × World)
    → (r.0 ≡ true → Past write msg r.1)
    → old ≤ n
    → suc n ≤ (settled n reaches old r).committed
    → Past write msg (settled n reaches old r).world
settled-Past write n reaches old msg (true, s) k o h = k refl
settled-Past write n reaches old msg (false, s) k o h = absurd (omega (arith, o, h))

-- A turn of the worker's loop moves the committed offset past the message it fetched only if that
-- message is recorded or a dead letter (which holds what JSON makes of the bytes received), and,
-- where it has an event id and a type that the payment or the inventory handler takes, that handler
-- has claimed the event in the database. This is so whichever statements and requests fail.
pub committed_is_handled :
    (write : Text → Text) (n : ℕ) (env : Env) (msg : Message) (reaches : Bool) (l : Loop)
    → l.committed ≤ n
    → suc n ≤ (turn (wired write) (fetched n env msg reaches) l).committed
    → Past write msg (turn (wired write) (fetched n env msg reaches) l).world
unfolding turn
committed_is_handled write n env msg reaches l o h =
    settled-Past write n reaches l.committed msg (handle_message (wired write) env msg l.world)
      (handle_message-Past write env msg l.world) o h
