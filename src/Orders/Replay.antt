-- ===== src/Orders/Replay.antt =====
-- The idempotency key of order creation: a stored response is replayed, and nothing is written.
use go_commerce.Base.{
  ℕ, ◌≡◌, refl, Bool, true, false, ◌&&◌, not, Option, none, some, List, [], ◌∷◌, ◌++◌, first_row,
  if◌then◌else◌, arith, ==_refl,
}
use go_commerce.Base.Text.{Text, text_eq, text_eq_refl, is_empty}
use go_commerce.Domain.Errors.{Result, ok, err, conflict}
use go_commerce.Store.Models.{IdempotencyModel, Db}
use go_commerce.Store.Tx.{transaction, query, statement}
use go_commerce.Store.Rows.{Env}
use go_commerce.Store.Call.{Call, reading, returns, refuses}
use go_commerce.Orders.Create.{CreateItem}
use go_commerce.Orders.Queries.{
  is_key, idempotency_row, find_idempotency, Remembered, new_idempotency, save_found,
  save_idempotency_response,
}
use go_commerce.Orders.Service.{
  Created, replay, create_with_key, place_unless_stored, stored_response, remember_idempotent,
}

first_row-append :
    {A : Type 0} (p : A → Bool) (xs : List A) (x : A)
    → first_row p xs ≡ none
    → p x ≡ true
    → first_row p (xs ++ x ∷ []) ≡ some x
first_row-append p [] x e h = rw h refl
first_row-append p (y ∷ ys) x e h = ground (arith, first_row-append p ys x)

idempotency_row-append :
    (user : ℕ) (key : Text) (db : Db) (row : IdempotencyModel)
    → row.user_id ≡ user
    → row.key ≡ key
    → idempotency_row user key db ≡ none
    → idempotency_row user key (record db { idempotency = db.idempotency ++ row ∷ [] }) ≡ some row
unfolding idempotency_row is_key
idempotency_row-append user key db row u k e =
    first_row-append _ db.idempotency row e (rw (u, k) (rw (==_refl user, text_eq_refl key) refl))

module _ (hash : List CreateItem → Text) (jsonb : Text → Option Text) where
  -- The row of the key after the response to `items` has been stored under it.
  abbrev pub Stored : ℕ → Text → List CreateItem → ℕ → Text → Db → Type 0
  Stored user key items status body db =
      (row : IdempotencyModel) × (idempotency_row user key db ≡ some row)
      × (row.response_status ≡ some status)
      × (row.response_body ≡ body)
      × (row.request_hash ≡ hash items)

  abbrev pub remembered : ℕ → Text → Text → Text → List CreateItem → ℕ → Text → Remembered
  remembered user key method path items status body = record {
    user_id = user;
    key = key;
    method = method;
    path = path;
    request_hash = hash items;
    status = status;
    body = body;
  }

  save_found-Stored :
      (now user : ℕ) (key method path : Text) (items : List CreateItem) (status : ℕ)
      (body kept : Text) (db : Db) (o : Option IdempotencyModel)
      → jsonb body ≡ some kept
      → o ≡ none
      → idempotency_row user key db ≡ none
      → Stored user key items status kept
          (transaction
            (save_found jsonb now (remembered user key method path items status body) o)
            db
            []).1
  unfolding save_found transaction statement
  save_found-Stored now user key method path items status body kept db none j _ e =
      let row = new_idempotency now (remembered user key method path items status body) kept in
      rw j (row, idempotency_row-append user key db row refl refl e, refl, refl, refl)
  save_found-Stored now user key method path items status body kept db (some x) j e _ = absurd (cc)

  -- Storing the response under a key that has no row yet stores it, when no statement fails.
  remember-Stored :
      (now user : ℕ) (key method path : Text) (items : List CreateItem) (status : ℕ)
      (body kept : Text) (db : Db)
      → jsonb body ≡ some kept
      → idempotency_row user key db ≡ none
      → Stored user key items status kept
          (remember_idempotent hash jsonb now user key method path items status body db []).1
  unfolding remember_idempotent save_idempotency_response find_idempotency transaction query
      statement
  remember-Stored now user key method path items status body kept db j e =
      save_found-Stored now user key method path items status body kept db
        (idempotency_row user key db) j e e

  -- The answer to a request whose items are `items` where the response to `first` is stored.
  abbrev pub answer : List CreateItem → List CreateItem → ℕ → Text → Result Created
  answer first items status body =
      if not (is_empty (hash first)) && not (text_eq (hash first) (hash items))
      then err conflict
      else ok (replay status body)

  stored_response-Stored :
      (user : ℕ) (key : Text) (items : List CreateItem) (status : ℕ) (body : Text) (db : Db)
      → is_empty body ≡ false
      → Stored user key items status body db
      → stored_response (idempotency_row user key db) ≡ some (status, body, hash items)
  stored_response-Stored user key items status body db b h =
      rw (h.1) (rw (h.2) (rw (h.3) (rw b (rw (h.4) refl))))

  replayed-answer :
      (env : Env) (user : ℕ) (first items : List CreateItem) (status : ℕ) (body : Text) (db : Db)
      (row : Option (ℕ × Text × Text))
      → row ≡ some (status, body, hash first)
      → place_unless_stored hash env user items row db [] ≡ (answer first items status body, db, [])
  replayed-answer env user first items status body db row e =
      rw e (split (not (is_empty (hash first)) && not (text_eq (hash first) (hash items))))
    where
      split :
          (b : Bool)
          → (if◌then◌else◌ {A = Call Created} b (refuses conflict) (returns (replay status body)))
              db []
            ≡ ((if b then err conflict else ok (replay status body)), db, [])
      split true = refl
      split false = refl

  create-answer :
      (env : Env) (user : ℕ) (key : Text) (first items : List CreateItem) (it : CreateItem)
      (status : ℕ) (body : Text) (db : Db)
      → is_empty key ≡ false
      → is_empty body ≡ false
      → Stored user key first status body db
      → create_with_key hash env user (it ∷ items) key db []
        ≡ (answer first (it ∷ items) status body, db, [])
  unfolding create_with_key reading find_idempotency query statement
  create-answer env user key first items it status body db k b h = rw k (
      replayed-answer env user first (it ∷ items) status body db
        (stored_response (idempotency_row user key db))
        (stored_response-Stored user key first status body db b h))

  -- Where a response was stored under a non-empty key that had no row, Postgres keeps its body as the
  -- text `kept`, which is not empty, and no statement fails, a request of one item or more with that
  -- key answers the status of the response and the text `kept` if its items
  -- have the digest of the first request's, and is a conflict if not (an empty digest is not
  -- compared). Either way it writes nothing.
  pub stored_key_replays :
      (env : Env) (now user : ℕ) (key method path : Text) (first items : List CreateItem)
      (it : CreateItem) (status : ℕ) (body kept : Text) (db : Db)
      → is_empty key ≡ false
      → jsonb body ≡ some kept
      → is_empty kept ≡ false
      → idempotency_row user key db ≡ none
      → let after =
          (remember_idempotent hash jsonb now user key method path first status body db []).1 in
        create_with_key hash env user (it ∷ items) key after []
        ≡ (answer first (it ∷ items) status kept, after, [])
  stored_key_replays env now user key method path first items it status body kept db k j b e =
      create-answer env user key first items it status kept _ k b
        (remember-Stored now user key method path first status body kept db j e)
