-- ===== src/Workers/Redelivery.antt =====
-- A message that was handled is handled again without effect: at-least-once delivery and the inbox
-- make each effect happen once.
use go_commerce.Base.{
  ℕ, ◌≡◌, refl, Bool, true, false, Option, none, some, List, [], first_row, is_some, if◌then◌else◌,
  Bool-cases, inl, inr,
}
use go_commerce.Base.Text.{Text, text_eq_refl}
use go_commerce.Domain.Errors.{ok}
use go_commerce.Domain.Order.{EventType}
use go_commerce.Store.Models.{Consumer, payment, inventory, Db}
use go_commerce.Store.Tx.{Tx, Faults, done, exec, statement, ◌>>=◌}
use go_commerce.Store.Ensures.{
  Ensures, Ensures-pure, Ensures-bind, Ensures-always, Keeps, transaction-Keeps, transaction-ok,
}
use go_commerce.Store.Rows.{
  Env, claims, same_consumer, already_processed, claimed_db, try_claim, claim,
}
use go_commerce.Workers.Recorded.{is_some-append}
use go_commerce.Workers.Claims.{charge_claimed-Inboxed, apply_claimed-Inboxed}
use go_commerce.Workers.Payload.{Message, order_id_of, for_order}
use go_commerce.Workers.Payment.{charge_claimed, charge_event, handle_order_created}
use go_commerce.Store.Inbox.{mark_processed}
use go_commerce.Workers.Inventory.{apply_claimed, stock_event, moves_stock, handle_stock}

abbrev pub Processed : Consumer → Text → Db → Type 0
Processed c id db = already_processed c id db ≡ true

module _ (now : ℕ) (c : Consumer) (id : Text) (t : EventType) where
  claims_self :
      claims c id (record { event_id = id; consumer = c; event_type = t; processed_at = now })
      ≡ true
  unfolding claims
  claims_self = rw (text_eq_refl id) (self c)
    where
      self : (c : Consumer) → same_consumer c c ≡ true
      self payment = refl
      self inventory = refl

  try_claim-Processed : (db : Db) → Processed c id (try_claim now c id t db).1
  unfolding claimed_db already_processed
  try_claim-Processed db = elim (Bool-cases (already_processed c id db)) [
    | inl e ↦ rw e e
    | inr e ↦ rw e (is_some-append (claims c id) db.inbox _ claims_self)
  ]

  -- A claim of an event that was marked before is told that there is nothing to do, and the table
  -- keeps its rows.
  claim-mark_processed :
      (later : ℕ) (db : Db)
      → (mark_processed now c id t >>= (λ _. claim later c id t)) db []
        ≡ done false (try_claim now c id t db).1 []
  unfolding mark_processed exec claim statement already_processed
  claim-mark_processed later db = rw (try_claim-Processed db) refl

  module _ {A : Type 0} (f : Bool → Tx A) where
    claim-Processed :
        (db : Db)
        → ((b : Bool) → Keeps (Processed c id) (f b))
        → Ensures db (claim now c id t >>= f) (λ _ d. Processed c id d)
    unfolding claim
    claim-Processed db k =
        Ensures-bind {R = λ _ d. Processed c id d} _ f
          (Ensures-always (try_claim now c id t) (try_claim-Processed db)) (λ b d h. (k b).at d h)

    claim-duplicate :
        (db : Db)
        → Processed c id db
        → Ensures db (f false) (λ _ d. d ≡ db)
        → Ensures db (claim now c id t >>= f) (λ _ d. d ≡ db)
    unfolding claim
    claim-duplicate db e k =
        Ensures-bind {R = λ b d. (b ≡ false) × (d ≡ db)} _ f
          (Ensures-always (try_claim now c id t) (rw e (refl, refl))) (λ b d h. go b d h.0 h.1)
      where
        go : (b : Bool) (d : Db) → b ≡ false → d ≡ db → Ensures d (f b) (λ _ x. x ≡ db)
        go b d p q = rw (p, q) k

module _ {A : Type 0} {P : Db → Type 0} where
  for_order-holds :
      (o : Option ℕ) (m : ℕ → Tx A) (db : Db) (fs : Faults)
      → P db
      → ((id : ℕ) → Ensures db (m id) (λ _ d. P d))
      → P (for_order o m db fs).1
  for_order-holds none m db fs h k = h
  for_order-holds (some id) m db fs h k = transaction-Keeps P (m id) fs h (k id)

  for_order-ok :
      (o : Option ℕ) (m : ℕ → Tx A) (db : Db) (fs : Faults) (b : A)
      → ((id : ℕ) → Ensures db (m id) (λ _ d. P d))
      → (for_order o m db fs).0 ≡ ok b
      → P (for_order o m db fs).1
  for_order-ok none m db fs b k e = absurd (cc)
  for_order-ok (some id) m db fs b k e = transaction-ok (m id) fs b (k id) e

charge_event-Processed :
    (env : Env) (id : ℕ) (msg : Message) (db : Db)
    → Ensures db (charge_event env id msg) (λ _ d. Processed payment msg.event_id d)
unfolding charge_event already_processed
charge_event-Processed env id msg db =
    claim-Processed env.now payment msg.event_id msg.event_type (charge_claimed env id msg) db (
      charge_claimed-Inboxed (λ rows. is_some (first_row (claims payment msg.event_id) rows) ≡ true)
        env id msg)

charge_event-duplicate :
    (env : Env) (id : ℕ) (msg : Message) (db : Db)
    → Processed payment msg.event_id db
    → Ensures db (charge_event env id msg) (λ _ d. d ≡ db)
unfolding charge_event charge_claimed
charge_event-duplicate env id msg db h =
    claim-duplicate env.now payment msg.event_id msg.event_type (charge_claimed env id msg) db h
      (Ensures-pure tt refl)

stock_event-Processed :
    (env : Env) (id : ℕ) (msg : Message) (db : Db)
    → Ensures db (stock_event env id msg) (λ _ d. Processed inventory msg.event_id d)
unfolding stock_event already_processed
stock_event-Processed env id msg db =
    claim-Processed env.now inventory msg.event_id msg.event_type
      (apply_claimed env id msg.event_type) db
      (apply_claimed-Inboxed
        (λ rows. is_some (first_row (claims inventory msg.event_id) rows) ≡ true) env id
        msg.event_type)

stock_event-duplicate :
    (env : Env) (id : ℕ) (msg : Message) (db : Db)
    → Processed inventory msg.event_id db
    → Ensures db (stock_event env id msg) (λ _ d. d ≡ db)
unfolding stock_event apply_claimed
stock_event-duplicate env id msg db h =
    claim-duplicate env.now inventory msg.event_id msg.event_type
      (apply_claimed env id msg.event_type) db h (Ensures-pure [] refl)

pub charge_ok :
    (env : Env) (msg : Message) (db : Db) (fs : Faults)
    → (handle_order_created env msg db fs).0 ≡ ok tt
    → Processed payment msg.event_id (handle_order_created env msg db fs).1
unfolding handle_order_created
charge_ok env msg db fs e =
    for_order-ok (order_id_of msg) _ db fs tt (λ id. charge_event-Processed env id msg db) e

charge_duplicate :
    (env : Env) (msg : Message) (db : Db) (fs : Faults)
    → Processed payment msg.event_id db
    → (handle_order_created env msg db fs).1 ≡ db
unfolding handle_order_created
charge_duplicate env msg db fs h =
    for_order-holds {P = λ d. d ≡ db} (order_id_of msg) _ db fs refl
      (λ id. charge_event-duplicate env id msg db h)

-- Once the payment worker has handled a message without an error, handling a message with that
-- event id again leaves the database as it is, whatever its payload, the clock and the statements
-- that fail then.
pub redelivered_charge :
    (env later : Env) (msg again : Message) (db : Db) (fs gs : Faults)
    → again.event_id ≡ msg.event_id
    → (handle_order_created env msg db fs).0 ≡ ok tt
    → (handle_order_created later again (handle_order_created env msg db fs).1 gs).1
      ≡ (handle_order_created env msg db fs).1
redelivered_charge env later msg again db fs gs i e =
    charge_duplicate later again _ gs (rw i (charge_ok env msg db fs e))

pub stock_ok :
    (env : Env) (msg : Message) (db : Db) (fs : Faults) (ids : List ℕ)
    → moves_stock msg.event_type ≡ true
    → (handle_stock env msg db fs).0 ≡ ok ids
    → Processed inventory msg.event_id (handle_stock env msg db fs).1
unfolding handle_stock
stock_ok env msg db fs ids m = go (moves_stock msg.event_type) m
  where
    go :
        (b : Bool)
        → b ≡ true
        → (if b
            then for_order (order_id_of msg) (λ id. stock_event env id msg) db fs
            else (ok [], db, fs)).0
          ≡ ok ids
        → Processed inventory msg.event_id
            (if b
              then for_order (order_id_of msg) (λ id. stock_event env id msg) db fs
              else (ok [], db, fs)).1
    go true _ e =
        for_order-ok (order_id_of msg) _ db fs ids (λ id. stock_event-Processed env id msg db) e
    go false f e = absurd (cc)

stock_duplicate :
    (env : Env) (msg : Message) (db : Db) (fs : Faults)
    → Processed inventory msg.event_id db
    → (handle_stock env msg db fs).1 ≡ db
unfolding handle_stock
stock_duplicate env msg db fs h = elim (Bool-cases (moves_stock msg.event_type)) [
  | inl e ↦ rw e (
      for_order-holds {P = λ d. d ≡ db} (order_id_of msg) _ db fs refl
        (λ id. stock_event-duplicate env id msg db h))
  | inr e ↦ rw e refl
]

-- Once the inventory worker has handled a message of a type it reacts to without an error,
-- handling a message with that event id again leaves the database as it is, whatever its type and
-- payload, the clock and the statements that fail then.
pub redelivered_stock :
    (env later : Env) (msg again : Message) (db : Db) (fs gs : Faults) (ids : List ℕ)
    → again.event_id ≡ msg.event_id
    → moves_stock msg.event_type ≡ true
    → (handle_stock env msg db fs).0 ≡ ok ids
    → (handle_stock later again (handle_stock env msg db fs).1 gs).1
      ≡ (handle_stock env msg db fs).1
redelivered_stock env later msg again db fs gs ids i m e =
    stock_duplicate later again _ gs (rw i (stock_ok env msg db fs ids m e))
