-- ===== src/Relay/Wire.antt =====
-- internal/platform/kafka/kafka.go: an event on its way from the outbox to a worker. Writing and
-- reading JSON (encoding/json) are parameters.
use go_commerce.Base.{
  ℕ, suc, ◌≡◌, refl, ◌^◌, ◌≤◌, ◌++◌, ◌%◌, Option, none, some, [], ◌∷◌, arith, ap, ◌∙◌,
}
use go_commerce.Base.Text.{Text}
use go_commerce.Domain.Order.{pending_payment, EventType, other_event}
use go_commerce.Store.Models.{float64, uint, nil, EventRow, Db}
use go_commerce.Store.Tx.{done, exec, statement}
use go_commerce.Store.Rows.{Env, new_event, enqueue}
use go_commerce.Orders.Create.{order_payload}
use go_commerce.Store.Models.{OrderModel}
use go_commerce.Workers.Payload.{Message, as_uint, order_id_of}
use go_commerce.Relay.{Event, event_of}

-- `Event{}`, whose payload is a nil map.
abbrev pub zero_event : Event
zero_event = record {
  key = 0;
  id = [];
  event_type = other_event [];
  payload = record {
    order_id = nil;
    user_id = 0;
    status = pending_payment;
    total = none;
    simulate_outcome = nil;
  };
  created_at = 0;
}

abbrev pub message_of : Text → Event → Message
message_of body e = record {
  event_id = e.id;
  event_type = e.event_type;
  payload = e.payload;
  raw_body = body;
}

-- What `json.Unmarshal` gives, or the zero event if it fails.
abbrev pub decoded : Option Event → Event
decoded none = zero_event
decoded (some e) = e

module _ (marshal : Event → Text) (unmarshal : Text → Option Event) where
  -- The value that `Publish` writes.
  unfoldable pub body_of : Event → Text
  body_of e = marshal e

  -- `Fetch` of a message with that value.
  unfoldable pub fetch : Text → Message
  fetch body = message_of body (decoded (unmarshal body))

-- What JSON keeps of the event `e` in the event `f` that is read back: an unsigned number in the
-- payload becomes a `float64`, which is that number up to 2 ^ 53.
pub record Kept (e f : Event) : Type 0 where
  pub id : f.id ≡ e.id
  pub event_type : f.event_type ≡ e.event_type
  pub order_id : (n : ℕ) → n ≤ 2 ^ 53 → e.payload.order_id ≡ uint n → f.payload.order_id ≡ float64 n
  pub simulate_outcome : e.payload.simulate_outcome ≡ nil → f.payload.simulate_outcome ≡ nil

abbrev pub JsonKeeps : (Event → Text) → (Text → Option Event) → Event → Type 0
JsonKeeps marshal unmarshal e = (f : Event) × (unmarshal (marshal e) ≡ some f) × Kept e f

-- The event of the row that is enqueued for a change of an order.
abbrev pub row_of : Env → ℕ → EventType → OrderModel → Option ℕ → Db → EventRow
row_of env id type order total db = new_event env id type (order_payload id order total) db.outbox

abbrev pub enqueued : Env → ℕ → EventType → OrderModel → Option ℕ → Db → Db
enqueued env id type order total db = record db {
  outbox = db.outbox ++ row_of env id type order total db ∷ [];
}

order_id_of-float64 :
    (m : Message) (n : ℕ)
    → m.payload.order_id ≡ float64 (suc n)
    → suc n ≤ 2 ^ 53
    → order_id_of m ≡ some (suc n)
unfolding order_id_of as_uint
order_id_of-float64 m n e h =
    let small : suc n % 2 ^ 64 ≡ suc n = omega arith in rw (order_id_of, e, small) refl

-- The message has the id and type, the order id `id`, and no simulated outcome.
pub record IsAbout (env : Env) (id : ℕ) (type : EventType) (m : Message) : Type 0 where
  pub event_id : m.event_id ≡ env.uuid
  pub event_type : m.event_type ≡ type
  pub order_id : order_id_of m ≡ some id
  pub simulate_outcome : m.payload.simulate_outcome ≡ nil

-- When no statement fails, the write of an event about the order `id`, between 1 and 2 ^ 53, adds a
-- row to the outbox. What a worker fetches of that row's event, through a JSON library that keeps
-- such numbers, has the id and type of the event, the order id `id`, and no simulated outcome.
pub enqueued_event_is_read :
    (marshal : Event → Text) (unmarshal : Text → Option Event) (env : Env) (id : ℕ)
    (type : EventType) (order : OrderModel) (total : Option ℕ) (db : Db)
    → suc id ≤ 2 ^ 53
    → JsonKeeps marshal unmarshal (event_of (row_of env (suc id) type order total db))
    → (enqueue env (suc id) type (order_payload (suc id) order total) db []
        ≡ done tt (enqueued env (suc id) type order total db) [])
      × IsAbout env (suc id) type (
          fetch marshal unmarshal
            (body_of marshal unmarshal (event_of (row_of env (suc id) type order total db))))
unfolding enqueue exec statement fetch body_of event_of
enqueued_event_is_read marshal unmarshal env id type order total db small (f, e, k) =
    let body : Text = marshal (event_of (row_of env (suc id) type order total db)) in
    let at : message_of body (decoded (unmarshal body)) ≡ message_of body f =
      ap (λ o. message_of body (decoded o)) e in
    (
      refl,
      record {
        event_id = ap (λ x. x.event_id) at ∙ k.id;
        event_type = ap (λ x. x.event_type) at ∙ k.event_type;
        order_id =
            order_id_of-float64 _ id
              (ap (λ x. x.payload.order_id) at ∙ k.order_id (suc id) small refl) small;
        simulate_outcome = ap (λ x. x.payload.simulate_outcome) at ∙ k.simulate_outcome refl;
      },
    )
