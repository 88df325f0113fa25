-- ===== src/Workers/Dispatch.antt =====
-- internal/worker/dispatch/dispatch.go and the loop of cmd/worker/main.go: one message goes to the
-- handler of its type, then to the audit, and its offset is committed if neither fails.
use go_commerce.Base.{ℕ, suc, ◌*◌, Bool, true, false, Option, if◌then◌else◌, ltb}
use go_commerce.Base.Text.{Text, is_empty}
use go_commerce.Domain.Errors.{Result, ok, err}
use go_commerce.Domain.Order.{
  EventType, order_created, order_paid, order_payment_failed, order_cancelled, order_fulfilled,
}
use go_commerce.Store.Models.{Db}
use go_commerce.Store.Tx.{Faults}
use go_commerce.Store.Rows.{Env}
use go_commerce.Workers.Payload.{Message}
use go_commerce.Workers.Payment.{handle_order_created}
use go_commerce.Workers.Inventory.{handle_stock}
use go_commerce.Workers.Audit.{Sinks, handle_audit}

-- Which of the optional parts of the processor are there, and what the writing of JSON by the
-- producer of dead letters makes of a text.
pub record Wiring : Type 0 where
  pub has_payment : Bool
  pub has_inventory : Bool
  pub dlq : Option (Text → Text)

abbrev pub is_ok : {A : Type 0} → Result A → Bool
is_ok (ok a) = true
is_ok (err e) = false

abbrev pub outcome : {A : Type 0} → Result A × Db × Faults → Bool × Db × Faults
outcome r = (is_ok r.0, r.1, r.2)

abbrev pub to_inventory : Wiring → Env → Message → Db → Faults → Bool × Db × Faults
to_inventory w env msg db fs =
    if w.has_inventory then outcome (handle_stock env msg db fs) else (true, db, fs)

-- `routeCommerce`, and whether it returned no error.
unfoldable pub route_commerce :
    Wiring → Env → Message → EventType → Db → Faults → Bool × Db × Faults
unfolding handle_order_created handle_stock
route_commerce w env msg order_created db fs =
    if w.has_payment then outcome (handle_order_created env msg db fs) else (true, db, fs)
route_commerce w env msg order_paid db fs = to_inventory w env msg db fs
route_commerce w env msg order_cancelled db fs = to_inventory w env msg db fs
route_commerce w env msg order_payment_failed db fs = to_inventory w env msg db fs
route_commerce w env msg order_fulfilled db fs = to_inventory w env msg db fs
route_commerce w env msg _ db fs = (true, db, fs)

abbrev pub routed : Wiring → Env → Message → Db → Faults → Bool × Db × Faults
routed w env msg db fs =
    if is_empty msg.event_id then (true, db, fs) else route_commerce w env msg msg.event_type db fs

pub record World : Type 0 where
  pub db : Db
  pub faults : Faults
  pub sinks : Sinks

abbrev pub audited : Wiring → Env → Message → Bool × Db × Faults → Sinks → Bool × World
audited w env msg (false, db, fs) s = (false, record { db = db; faults = fs; sinks = s })
audited w env msg (true, db, fs) s = (
  (handle_audit w.dlq env.now msg s).0,
  record { db = db; faults = fs; sinks = (handle_audit w.dlq env.now msg s).1 },
)

-- `Processor.Handle`, and whether it returned no error.
unfoldable pub handle_message : Wiring → Env → Message → World → Bool × World
unfolding route_commerce handle_audit
handle_message w env msg s = audited w env msg (routed w env msg s.db s.faults) s.sinks

-- What `consumer.Fetch` returns, and whether the commit that may follow reaches the broker.
pub data Fetched : Type 0 where
  fetched : ℕ → Env → Message → Bool → Fetched
  fetch_failed : Fetched

-- The offset that the group has committed, and the wait after the next failed fetch in seconds.
pub record Loop : Type 0 where
  pub world : World
  pub committed : ℕ
  pub backoff : ℕ

abbrev pub settled : ℕ → Bool → ℕ → Bool × World → Loop
settled n reaches old (true, s) = record {
  world = s;
  committed = if reaches then suc n else old;
  backoff = 1;
}
settled n reaches old (false, s) = record { world = s; committed = old; backoff = 1 }

-- One turn of the loop of the worker on the message with offset `n`.
unfoldable pub turn : Wiring → Fetched → Loop → Loop
unfolding handle_message
turn w fetch_failed l = record l { backoff = if ltb l.backoff 30 then l.backoff * 2 else l.backoff }
turn w (fetched n env msg reaches) l =
    settled n reaches l.committed (handle_message w env msg l.world)
