-- ===== src/Store/Rows.antt =====
-- The platform's statements on single tables: internal/platform/ledger (`Append`),
-- internal/platform/inbox (`Claim`) and internal/platform/outbox (`Enqueue`).
use go_commerce.Base.{
  ℕ, ◌+◌, Bool, true, false, ◌&&◌, Option, none, some, List, [], ◌∷◌, ◌++◌, length, first_row,
  is_some, if◌then◌else◌,
}
use go_commerce.Base.Int.{ℤ}
use go_commerce.Base.Text.{Text, text_eq}
use go_commerce.Domain.Order.{EventType}
use go_commerce.Store.Models.{Reason, Consumer, payment, inventory, InboxRow, Payload, EventRow, Db}
use go_commerce.Store.Tx.{Tx, statement, exec}

-- The values that the running program takes from outside: the clock and a new UUID.
pub record Env : Type 0 where
  pub now : ℕ
  pub uuid : Text

-- `ledger.Append`
unfoldable pub append_entry : ℕ → ℕ → Option ℕ → ℤ → Reason → Option ℕ → Tx (Unit {0})
unfolding exec
append_entry now product order delta reason balance = exec λ db. record db {
  ledger =
      db.ledger
      ++ record {
        product_id = product;
        order_id = order;
        delta = delta;
        reason = reason;
        balance_after = balance;
        created_at = now;
      }
        ∷ [];
}

abbrev pub same_consumer : Consumer → Consumer → Bool
same_consumer payment payment = true
same_consumer inventory inventory = true
same_consumer _ _ = false

unfoldable pub claims : Consumer → Text → InboxRow → Bool
claims c id r = text_eq r.event_id id && same_consumer r.consumer c

-- `inbox.AlreadyProcessed`: the count of the pair's rows is not 0.
unfoldable pub already_processed : Consumer → Text → Db → Bool
unfolding claims
already_processed c id db = is_some (first_row (claims c id) db.inbox)

unfoldable pub claimed_db : ℕ → Consumer → Text → EventType → Db → Db
claimed_db now c id type db = record db {
  inbox =
      db.inbox
      ++ record { event_id = id; consumer = c; event_type = type; processed_at = now } ∷ [];
}

abbrev pub try_claim : ℕ → Consumer → Text → EventType → Db → Bool × Db
try_claim now c id type db =
    if already_processed c id db then (false, db) else (true, claimed_db now c id type db)

-- `inbox.Claim`: `ON CONFLICT (event_id, consumer) DO NOTHING`, and whether a row was inserted.
unfoldable pub claim : ℕ → Consumer → Text → EventType → Tx Bool
unfolding statement already_processed claimed_db
claim now c id type = statement (λ db. some (try_claim now c id type db))

abbrev pub new_event : Env → ℕ → EventType → Payload → List EventRow → EventRow
new_event env aggregate type payload rows = record {
  id = length rows + 1;
  event_id = env.uuid;
  aggregate_id = aggregate;
  event_type = type;
  payload = payload;
  created_at = env.now;
  published_at = none;
}

-- `outbox.Writer.Enqueue` for the aggregate type "order". No row is ever deleted, so the next id
-- of the sequence is one more than the number of rows.
unfoldable pub enqueue : Env → ℕ → EventType → Payload → Tx (Unit {0})
unfolding exec
enqueue env aggregate type payload =
    exec
      λ db. record db { outbox = db.outbox ++ new_event env aggregate type payload db.outbox ∷ [] }
