-- ===== src/Orders/Queries.antt =====
-- The reads of internal/http/order/repository.go and the table of idempotency keys.
use go_commerce.Base.{
  ℕ, Bool, ◌&&◌, ◌||◌, Option, none, some, List, [], ◌∷◌, ◌++◌, ◌==◌, ltb, if◌then◌else◌, first_row,
  where_rows, take, map, is_some,
}
use go_commerce.Base.Int.{ℤ, pos, pos_part, leb_ℤ, ltb_ℤ}
use go_commerce.Base.Text.{Text, text_eq}
use go_commerce.Domain.Order.{pending_payment, is_status}
use go_commerce.Store.Table.{Table}
use go_commerce.Store.Models.{OrderModel, OrderItemModel, IdempotencyModel, Db}
use go_commerce.Store.Tx.{Tx, pure, query, statement, ◌>>=◌}
use go_commerce.Orders.Change.{load_owned, load_any}

unfoldable pub items_of : ℕ → Db → List OrderItemModel
items_of id db = where_rows (λ it. it.order_id == id) db.items

unfoldable pub find_by_id : ℕ → ℕ → Tx (OrderModel × List OrderItemModel)
unfolding load_owned query items_of
find_by_id user id = do order ← load_owned user id; items ← query (items_of id); pure (order, items)

unfoldable pub find_by_id_any : ℕ → Tx (OrderModel × List OrderItemModel)
unfolding load_any query items_of
find_by_id_any id = do order ← load_any id; items ← query (items_of id); pure (order, items)

-- `if limit <= 0 || limit > 100 { limit = 20 }`
unfoldable pub page_limit : ℤ → ℕ
page_limit n = if leb_ℤ n (pos 0) || ltb_ℤ (pos 100) n then 20 else pos_part n

-- `ORDER BY id DESC`: ids come from a sequence, and a row is appended to the table, so the order
-- of ids is the order of the table.
unfoldable pub newest_first {ℓ} : {A : Type ℓ} → List A → List A
newest_first [] = []
newest_first (x ∷ xs) = newest_first xs ++ x ∷ []

unfoldable pub list_by_user : ℕ → ℤ → Tx (Table OrderModel)
unfolding query page_limit newest_first
list_by_user user limit = query λ db.
    take (page_limit limit) (newest_first (where_rows (λ row. row.1.user_id == user) db.orders))

unfoldable pub is_expired : ℕ → ℕ × OrderModel → Bool
is_expired cutoff row = is_status row.1.status pending_payment && ltb row.1.created_at cutoff

abbrev pub key_of {ℓ} : {R : Type ℓ} → ℕ × R → ℕ
key_of row = row.0

unfoldable pub list_expired_pending_ids : ℕ → ℤ → Tx (List ℕ)
unfolding query is_expired
list_expired_pending_ids cutoff limit = query λ db. map key_of (
    take (if leb_ℤ limit (pos 0) then 50 else pos_part limit)
      (where_rows (is_expired cutoff) db.orders))

unfoldable pub is_key : ℕ → Text → IdempotencyModel → Bool
is_key user key row = (row.user_id == user) && text_eq row.key key

unfoldable pub idempotency_row : ℕ → Text → Db → Option IdempotencyModel
unfolding is_key
idempotency_row user key db = first_row (is_key user key) db.idempotency

unfoldable pub find_idempotency : ℕ → Text → Tx (Option IdempotencyModel)
unfolding query idempotency_row
find_idempotency user key = query (idempotency_row user key)

-- `tx.Model(&existing).Updates(…)`: the row with the primary key of `existing`, which is the first
-- row of its user and key.
unfoldable pub store_response : ℕ → Text → ℕ → Text → List IdempotencyModel → List IdempotencyModel
unfolding is_key
store_response user key status body [] = []
store_response user key status body (row ∷ rows) =
    if is_key user key row
    then record row { response_status = some status; response_body = body } ∷ rows
    else row ∷ store_response user key status body rows

pub record Remembered : Type 0 where
  pub user_id : ℕ
  pub key : Text
  pub method : Text
  pub path : Text
  pub request_hash : Text
  pub status : ℕ
  pub body : Text

abbrev pub new_idempotency : ℕ → Remembered → Text → IdempotencyModel
new_idempotency now r body = record {
  key = r.key;
  user_id = r.user_id;
  method = r.method;
  path = r.path;
  request_hash = r.request_hash;
  response_status = some r.status;
  response_body = body;
  created_at = now;
}

-- A statement that writes a value of the type `jsonb`, which may be refused.
abbrev pub writing : Option Text → (Text → Db → Db) → Db → Option (Unit {0} × Db)
writing none f db = none
writing (some body) f db = some (tt, f body db)

-- `jsonb` is what Postgres keeps of a text in a column of that type: it refuses what is not JSON, and
-- keeps neither white space nor the order of keys.
module _ (jsonb : Text → Option Text) where
  unfoldable pub save_found : ℕ → Remembered → Option IdempotencyModel → Tx (Unit {0})
  unfolding statement store_response
  save_found now r none = statement (
      writing (jsonb r.body)
        λ body db. record db { idempotency = db.idempotency ++ new_idempotency now r body ∷ [] })
  save_found now r (some existing) =
      if is_some existing.response_status
      then pure tt
      else statement (
          writing (jsonb r.body) λ body db. record db {
            idempotency = store_response r.user_id r.key r.status body db.idempotency;
          })

  unfoldable pub save_idempotency_response : ℕ → Remembered → Tx (Unit {0})
  unfolding find_idempotency save_found
  save_idempotency_response now r = do
    existing ← find_idempotency r.user_id r.key
    save_found now r existing
