-- ===== src/Search.antt =====
-- internal/platform/typesense: the client of the search engine. Each call goes through a circuit
-- breaker (sony/gobreaker) to a server (Typesense); neither is this code, so that what a call comes
-- to is an `Answer`, read from a list. Prices and the numbers of a document are whole.
use go_commerce.Base.{
  ℕ, zero, suc, ◌+◌, ◌-◌, ◌*◌, ◌/◌, ◌%◌, ◌^◌, ◌≡◌, Bool, true, false, ◌&&◌, ◌||◌, Option, none,
  some, List, [], ◌∷◌, ◌++◌, ◌==◌, leb, ltb, if◌then◌else◌,
}
use go_commerce.Base.Int.{ℤ, pos, negsuc, leb_ℤ, ltb_ℤ}
use go_commerce.Base.Text.{Text, codes, is_empty, to_lower, trim_space}
use go_commerce.Domain.Errors.{Error, Result, ok, err, unavailable, invalid}
use go_commerce.Store.Models.{Product}
use go_commerce.Access.{contains}
use go_commerce.Search.Values.{Value, itoa, as_string, as_uint, as_float}
pub mod Values
pub mod Degrades

pub record Hit : Type 0 where
  pub id : Value
  pub user_id : Value
  pub name : Value
  pub description : Value
  pub price : Value

pub record ProductDocument : Type 0 where
  pub id : Text
  pub user_id : ℕ
  pub name : Text
  pub description : Text
  pub price : ℕ

-- What goes to the server.
pub data Request : Type 0 where
  create_collection : Request
  upsert : ProductDocument → Request
  delete : Text → Request
  find : Text → ℕ → Request
  retrieve list_collections : Request

-- What the server answers: hits, of which some may lack a document; the number of documents; or an
-- error with its message.
pub data Reply : Type 0 where
  hits : Option (List (Option Hit)) → Reply
  documents : Option ℕ → Reply
  accepted : Reply
  refused : Text → Reply

-- The breaker lets the call through, or it is open, or half-open with enough calls.
pub data Answer : Type 0 where
  through : Reply → Answer
  open_state too_many_requests : Answer

-- The requests that reached the server, and the answers to come; with none left, the breaker is
-- open.
pub record Remote : Type 0 where
  pub requests : List Request
  pub answers : List Answer

-- `err` of `breaker.Execute`.
pub data Failure : Type 0 where
  by_breaker : Failure
  by_server : Text → Failure

pub data Outcome (A : Type 0) : Type 0 where
  done : A → Outcome A
  failed : Failure → Outcome A

abbrev pub Act : Type 0 → Type 0
Act A = Remote → Outcome A × Remote

abbrev pub answered : Reply → Outcome Reply
answered (refused message) = failed (by_server message)
answered r = done r

-- `breaker.Execute` of one request.
unfoldable pub execute : Request → Act Reply
execute r w = elim w.answers [
  | [] ↦ (failed by_breaker, w)
  | through a ∷ rest ↦ (answered a, record { requests = w.requests ++ r ∷ []; answers = rest })
  | open_state ∷ rest ↦ (failed by_breaker, record w { answers = rest })
  | too_many_requests ∷ rest ↦ (failed by_breaker, record w { answers = rest })
]

-- Failed `already exists` is a success.
abbrev pub is_conflict : Failure → Bool
unfolding contains to_lower
is_conflict by_breaker = false
is_conflict (by_server message) =
    contains (to_lower message) (codes "already exists")
    || contains (to_lower message) (codes "conflict")

abbrev pub created : Outcome Reply → Outcome (Unit {0})
unfolding contains to_lower
created (done r) = done tt
created (failed f) = if is_conflict f then done tt else failed f

unfoldable pub ensure_products_collection : Act (Unit {0})
unfolding execute contains to_lower
ensure_products_collection w =
    (created (execute create_collection w).0, (execute create_collection w).1)

-- The messages of the breaker name neither a collection nor 404.
unfoldable pub is_collection_missing : Failure → Bool
unfolding contains to_lower
is_collection_missing by_breaker = false
is_collection_missing (by_server message) =
    contains (to_lower message) (codes "collection not found")
    || (contains (to_lower message) (codes "not found")
        && contains (to_lower message) (codes "404"))

abbrev pub and_then : {A B : Type 0} → Outcome A × Remote → (A → Act B) → Outcome B × Remote
and_then (done a, w) f = f a w
and_then (failed e, w) f = (failed e, w)

abbrev pub product_document : ℕ → Product → ProductDocument
unfolding itoa
product_document id p = record {
  id = itoa id;
  user_id = p.user_id;
  name = p.name;
  description = p.description;
  price = p.price;
}

unfoldable pub index_product : ℕ → Product → Act Reply
unfolding ensure_products_collection execute itoa
index_product id p w =
    and_then (ensure_products_collection w) λ _. execute (upsert (product_document id p))

unfoldable pub delete_product : ℕ → Act Reply
unfolding execute itoa
delete_product id = execute (delete (itoa id))

-- `Ping`
unfoldable pub ping : Act Reply
unfolding execute
ping = execute list_collections

pub record CollectionStats : Type 0 where
  pub num_documents : ℕ
  pub exists : Bool

abbrev pub stats_of : Outcome Reply → CollectionStats
stats_of (done (documents (some n))) = record { num_documents = n; exists = true }
stats_of (done r) = record { num_documents = 0; exists = true }
stats_of (failed f) = record { num_documents = 0; exists = false }

-- `Stats`, which has no error.
unfoldable pub stats : Remote → CollectionStats × Remote
unfolding execute
stats w = (stats_of (execute retrieve w).0, (execute retrieve w).1)

-- The limit that is sent.
abbrev pub search_limit : ℤ → ℕ
search_limit (pos n) = if n == 0 || ltb 100 n then 20 else n
search_limit (negsuc n) = 20

module _ (parse_float : Text → ℕ) where
  unfoldable pub document_of : Hit → ProductDocument
  unfolding as_string as_uint as_float
  document_of h = record {
    id = as_string h.id;
    user_id = as_uint h.user_id;
    name = as_string h.name;
    description = as_string h.description;
    price = as_float parse_float h.price;
  }

  -- Hits without a document are passed over.
  abbrev pub documents_of : List (Option Hit) → List ProductDocument
  unfolding document_of
  documents_of [] = []
  documents_of (none ∷ hs) = documents_of hs
  documents_of (some h ∷ hs) = document_of h ∷ documents_of hs

  abbrev pub found : Outcome Reply → Outcome (List ProductDocument)
  unfolding document_of
  found (done (hits (some hs))) = done (documents_of hs)
  found (done r) = done []
  found (failed f) = failed f

  unfoldable pub search_once : Text → ℕ → Act (List ProductDocument)
  unfolding execute document_of
  search_once query limit w =
      (found (execute (find query limit) w).0, (execute (find query limit) w).1)

  -- After the second search: a collection that is missing still has no documents.
  abbrev pub settled : Outcome (List ProductDocument) → Result (List ProductDocument)
  unfolding is_collection_missing
  settled (done docs) = ok docs
  settled (failed f) = if is_collection_missing f then ok [] else err unavailable

  abbrev pub search_again :
      Text → ℕ → Outcome (Unit {0}) × Remote → Result (List ProductDocument) × Remote
  unfolding search_once is_collection_missing
  search_again query limit (done u, w) =
      (settled (search_once query limit w).0, (search_once query limit w).1)
  search_again query limit (failed f, w) = (err unavailable, w)

  abbrev pub search_settled :
      Text → ℕ → Outcome (List ProductDocument) × Remote → Result (List ProductDocument) × Remote
  unfolding search_once is_collection_missing ensure_products_collection
  search_settled query limit (done docs, w) = (ok docs, w)
  search_settled query limit (failed f, w) =
      if is_collection_missing f
      then search_again query limit (ensure_products_collection w)
      else (err unavailable, w)

  -- `Client.Search`
  unfoldable pub search_client : Text → ℤ → Remote → Result (List ProductDocument) × Remote
  unfolding search_once is_collection_missing ensure_products_collection
  search_client query limit w =
      search_settled query (search_limit limit) (search_once query (search_limit limit) w)

  -- `Service.Search` of internal/http/product/service.go: there may be no search engine.
  unfoldable pub search_products : Bool → Text → ℤ → Remote → Result (List ProductDocument) × Remote
  unfolding search_client trim_space
  search_products false query limit w = (err unavailable, w)
  search_products true query limit w =
      if is_empty (trim_space query)
      then (err invalid, w)
      else search_client (trim_space query) limit w
