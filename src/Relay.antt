-- ===== src/Relay.antt =====
-- internal/platform/outbox/outbox.go: the relay of the outbox to the bus, and its pause flag.
use go_commerce.Base.{
  ℕ, suc, ◌+◌, Bool, true, false, ◌&&◌, ◌||◌, not, Option, none, some, List, [], ◌∷◌, ◌++◌, ◌==◌,
  ltb, leb, if◌then◌else◌, length, take, where_rows, is_some, map,
}
use go_commerce.Base.Int.{ℤ}
use go_commerce.Base.Text.{Text, codes, text_eq}
use go_commerce.Domain.Order.{EventType}
use go_commerce.Store.Models.{EventRow, Payload}
use go_commerce.Workers.Audit.{
  Reply, served, unsent, unheard, stopped, next_reply, other_replies, heard, arrives,
}
use go_commerce.Orders.Queries.{page_limit}
pub mod Delivery
pub mod Wire
pub mod Drain

-- `kafka.Event`, with the key it is published under, less its prefix "order:".
pub record Event : Type 0 where
  pub key : ℕ
  pub id : Text
  pub event_type : EventType
  pub payload : Payload
  pub created_at : ℕ

-- The table, the topic, the answers to the statements and requests to come, and the clock.
pub record Outbox : Type 0 where
  pub rows : List EventRow
  pub bus : List Event
  pub replies : List Reply
  pub now : ℕ

-- `published_at IS NULL`
unfoldable pub is_pending : EventRow → Bool
is_pending r = not (is_some r.published_at)

-- `ORDER BY created_at ASC`, rows of one time in the order of the table.
abbrev pub insert_by_time : EventRow → List EventRow → List EventRow
insert_by_time r [] = r ∷ []
insert_by_time r (q ∷ qs) =
    if ltb q.created_at r.created_at then q ∷ insert_by_time r qs else r ∷ q ∷ qs

abbrev pub by_time : List EventRow → List EventRow
by_time [] = []
by_time (r ∷ rs) = insert_by_time r (by_time rs)

abbrev pub batch_size : ℕ
batch_size = 50

unfoldable pub pending_rows : ℕ → List EventRow → List EventRow
unfolding is_pending
pending_rows n rs = take n (by_time (where_rows is_pending rs))

unfoldable pub list_pending : ℤ → Outbox → List EventRow
unfolding page_limit pending_rows
list_pending limit o = pending_rows (page_limit limit) o.rows

unfoldable pub pending_count : Outbox → ℕ
unfolding is_pending
pending_count o = length (where_rows is_pending o.rows)

-- The event of a row. The payload is the one that was written: that a number passes through JSON, in
-- the row and on the wire, is left to the reading of the message (Wire). What `Enqueue` wrote is JSON,
-- so that no row is skipped.
unfoldable pub event_of : EventRow → Event
event_of r = record {
  key = r.aggregate_id;
  id = r.event_id;
  event_type = r.event_type;
  payload = r.payload;
  created_at = r.created_at;
}

-- `publisher.Publish`, and whether it returned no error.
unfoldable pub publish : EventRow → Outbox → Bool × Outbox
unfolding event_of
publish r o = (
  heard (next_reply o.replies),
  record o {
    bus = if arrives (next_reply o.replies) then o.bus ++ event_of r ∷ [] else o.bus;
    replies = other_replies o.replies;
  },
)

-- `WHERE id = ? AND published_at IS NULL`
unfoldable pub is_unpublished : ℕ → EventRow → Bool
unfolding is_pending
is_unpublished id r = (r.id == id) && is_pending r

unfoldable pub mark_rows : ℕ → ℕ → List EventRow → List EventRow
unfolding is_unpublished
mark_rows now id [] = []
mark_rows now id (r ∷ rs) =
    (if is_unpublished id r then record r { published_at = some now } else r) ∷ mark_rows now id rs

-- The conditional update: whether it returned no error, and `RowsAffected`.
unfoldable pub mark_published : EventRow → Outbox → Bool × ℕ × Outbox
unfolding mark_rows is_unpublished
mark_published r o = (
  heard (next_reply o.replies),
  length (where_rows (is_unpublished r.id) o.rows),
  record o {
    rows = if arrives (next_reply o.replies) then mark_rows o.now r.id o.rows else o.rows;
    replies = other_replies o.replies;
  },
)

-- What follows the update of a row: the error, or the rest of the loop over `published`.
abbrev pub after_mark : ℕ → Bool × ℕ × Outbox → (ℕ → Outbox → Bool × ℕ × Outbox) → Bool × ℕ × Outbox
after_mark n (false, affected, o) rest = (false, n, o)
after_mark n (true, affected, o) rest = rest (if affected == 0 then n else suc n) o

abbrev pub after_publish :
    ℕ → EventRow → Bool × Outbox → (ℕ → Outbox → Bool × ℕ × Outbox) → Bool × ℕ × Outbox
after_publish n r (false, o) rest = (false, n, o)
after_publish n r (true, o) rest = after_mark n (mark_published r o) rest

-- The loop over the rows read: whether it returned no error, `published`, and the outbox.
unfoldable pub relay_rows : List EventRow → ℕ → Outbox → Bool × ℕ × Outbox
unfolding publish mark_published
relay_rows [] n o = (true, n, o)
relay_rows (r ∷ rs) n o = after_publish n r (publish r o) (relay_rows rs)

abbrev pub after_find : Bool → List EventRow → Outbox → Bool × ℕ × Outbox
after_find false rs o = (false, 0, o)
after_find true rs o = relay_rows rs 0 o

-- `RelayOnce`. The count of pending rows goes to a metric only. A payload is what `Enqueue` wrote,
-- so that it can be decoded.
unfoldable pub relay_once : Outbox → Bool × ℕ × Outbox
unfolding pending_rows relay_rows
relay_once o =
    after_find (heard (next_reply o.replies)) (pending_rows batch_size o.rows)
      record o { replies = other_replies o.replies }

-- The pause flag of one replica: its own, and the one shared in Redis, whose key may be unset.
pub record Pause : Type 0 where
  pub local : Bool
  pub shared : Option Text
  pub has_store : Bool

unfoldable pub set_paused : Bool → Reply → Pause → Pause
set_paused paused reply p = record {
  local = paused;
  shared =
      if p.has_store && arrives reply
      then some (if paused then codes "1" else codes "0")
      else p.shared;
  has_store = p.has_store;
}

-- `Get` of an unset key is an error.
unfoldable pub is_paused : Reply → Pause → Bool
is_paused reply p =
    if p.has_store && heard reply
    then elim p.shared [ none ↦ p.local | some v ↦ text_eq v (codes "1") ]
    else p.local
