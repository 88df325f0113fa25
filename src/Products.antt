-- ===== src/Products.antt =====
-- internal/http/product: the service of products over its repository. Redis, Kafka and Typesense
-- are not this code: what the service asks of them is a list of requests, whose errors it drops.
use go_commerce.Base.{
  ℕ, suc, ◌+◌, Bool, true, false, not, ◌&&◌, ◌||◌, Option, none, some, List, [], ◌∷◌, ◌++◌, ◌==◌,
  ltb, if◌then◌else◌, length, take, where_rows, map,
}
use go_commerce.Base.Int.{ℤ, pos, pos_part, ltb_ℤ, leb_ℤ}
use go_commerce.Base.Text.{Text, is_empty, trim_space}
use go_commerce.Domain.Errors.{Error, Result, ok, err, invalid, not_found, forbidden, unavailable}
use go_commerce.Domain.Order.{EventType, product_created, product_updated, product_deleted}
use go_commerce.Store.Table.{Table, lookup, adjust, insert}
use go_commerce.Store.Models.{Product}
use go_commerce.Orders.Create.{live}
use go_commerce.Orders.Queries.{page_limit, newest_first}
pub mod Pages
pub mod Listing
pub mod Handler
pub mod Bounds
pub mod Cache
pub mod Overwrite

-- `Price` is a whole number that may be negative before it is checked.
pub record CreateInput : Type 0 where
  pub user_id : ℕ
  pub name : Text
  pub description : Text
  pub price : ℤ
  pub stock : ℤ

pub record UpdateInput : Type 0 where
  pub name : Option Text
  pub description : Option Text
  pub price : Option ℤ
  pub stock : Option ℤ

-- What the service asks of the cache, the bus and the search engine.
pub data Request : Type 0 where
  set_cache delete_cache : ℕ → Request
  invalidate_list : ℕ → Request
  publish : EventType → ℕ → Request
  index delete_index : ℕ → Request

pub record Shop : Type 0 where
  pub products : Table Product
  pub serial : ℕ
  pub requests : List Request

abbrev pub negative : ℤ → Bool
negative n = ltb_ℤ n (pos 0)

abbrev pub product_of_input : ℕ → CreateInput → Product
product_of_input now i = record {
  user_id = i.user_id;
  name = trim_space i.name;
  description = trim_space i.description;
  price = pos_part i.price;
  stock = pos_part i.stock;
  updated_at = now;
  is_deleted = false;
}

unfoldable pub create_product : ℕ → CreateInput → Shop → Result ℕ × Shop
create_product now i s =
    if is_empty (trim_space i.name) || negative i.price || negative i.stock
    then (err invalid, s)
    else (
      ok s.serial,
      record {
        products = insert s.serial (product_of_input now i) s.products;
        serial = s.serial + 1;
        requests =
            s.requests
            ++ set_cache s.serial
              ∷ invalidate_list i.user_id
              ∷ publish product_created s.serial
              ∷ index s.serial
              ∷ [];
      },
    )

-- `FindByID`: a soft-deleted row is not found.
unfoldable pub find_product : ℕ → Table Product → Option Product
find_product id ps = live (lookup id ps)

-- `GetByID`, by what the cache answers; whether the product was read is the request to cache it.
unfoldable pub get_product : Option Product → ℕ → Shop → Result Product × Shop
unfolding find_product
get_product (some cached) id s = (ok cached, s)
get_product none id s = elim (find_product id s.products) [
  | none ↦ (err not_found, s)
  | some p ↦ (ok p, record s { requests = s.requests ++ set_cache id ∷ [] })
]

-- The fields of the request, one after the other, each with its check.
abbrev pub set_name : Option Text → Product → Result Product
set_name none p = ok p
set_name (some name) p =
    if is_empty (trim_space name) then err invalid else ok (record p { name = trim_space name })

abbrev pub set_description : Option Text → Product → Product
set_description none p = p
set_description (some d) p = record p { description = trim_space d }

abbrev pub set_price : Option ℤ → Product → Result Product
set_price none p = ok p
set_price (some n) p = if negative n then err invalid else ok (record p { price = pos_part n })

abbrev pub set_stock : Option ℤ → Product → Result Product
set_stock none p = ok p
set_stock (some n) p = if negative n then err invalid else ok (record p { stock = pos_part n })

abbrev pub then_set : Result Product → (Product → Result Product) → Result Product
then_set (ok p) f = f p
then_set (err e) f = err e

unfoldable pub edit : UpdateInput → Product → Result Product
edit i p =
    then_set (set_name i.name p) λ named.
      then_set (set_price i.price (set_description i.description named)) (set_stock i.stock)

abbrev pub save_edited : ℕ → ℕ → ℕ → Result Product → Shop → Result Product × Shop
save_edited now user id (err e) s = (err e, s)
save_edited now user id (ok p) s = (
  ok (record p { updated_at = now }),
  record s {
    products = adjust id (λ _. record p { updated_at = now }) s.products;
    requests =
        s.requests
        ++ set_cache id ∷ invalidate_list user ∷ publish product_updated id ∷ index id ∷ [];
  },
)

-- `Update`: the row that was read is written back as a whole, as one step here.
unfoldable pub update_product : ℕ → ℕ → ℕ → UpdateInput → Shop → Result Product × Shop
unfolding find_product edit
update_product now user id i s = elim (find_product id s.products) [
  | none ↦ (err not_found, s)
  | some p ↦ if p.user_id == user then save_edited now user id (edit i p) s else (err forbidden, s)
]

abbrev pub mark_deleted : Product → Product
mark_deleted p = record p { is_deleted = true }

-- `Delete`: the owner or an admin.
unfoldable pub delete_product : ℕ → Bool → ℕ → Shop → Result (Unit {0}) × Shop
unfolding find_product
delete_product user is_admin id s = elim (find_product id s.products) [
  | none ↦ (err not_found, s)
  | some p ↦ if not (p.user_id == user) && not is_admin then (err forbidden, s) else (
    ok tt,
    record s {
      products = adjust id mark_deleted s.products;
      requests =
          s.requests
          ++ delete_cache id
            ∷ invalidate_list user
            ∷ publish product_deleted id
            ∷ delete_index id
            ∷ [];
    },
  )
]

-- `id < cursor`, where a cursor of 0 is no condition.
abbrev pub before : ℕ → ℕ × Product → Bool
before cursor row = (cursor == 0) || ltb row.0 cursor

abbrev pub is_listed : Option ℕ → ℕ × Product → Bool
is_listed none row = not row.1.is_deleted
is_listed (some user) row = not row.1.is_deleted && (row.1.user_id == user)

-- The rows that the two queries select, newest first: those of a user, or of all.
unfoldable pub listed : Option ℕ → Table Product → Table Product
unfolding newest_first
listed user ps = newest_first (where_rows (is_listed user) ps)

unfoldable pub list_cursor : Option ℕ → ℕ → ℕ → Table Product → Table Product
unfolding listed
list_cursor user cursor limit ps = take limit (where_rows (before cursor) (listed user ps))

pub record ListResult : Type 0 where
  pub items : Table Product
  pub next_cursor : ℕ
  pub has_more : Bool

abbrev pub last_id : Table Product → ℕ
last_id [] = 0
last_id (row ∷ []) = row.0
last_id (row ∷ other ∷ rows) = last_id (other ∷ rows)

-- The page of the rows read, of which one more than `limit` was asked for.
unfoldable pub page_of : ℕ → Table Product → ListResult
page_of limit rows = record {
  items = take limit rows;
  next_cursor = if ltb limit (length rows) then last_id (take limit rows) else 0;
  has_more = ltb limit (length rows);
}

-- `List` for a user whose first page is not cached, and `Catalog` for none.
unfoldable pub list_products : Option ℕ → ℕ → ℤ → Table Product → ListResult
unfolding page_limit list_cursor page_of
list_products user cursor limit ps =
    page_of (page_limit limit) (list_cursor user cursor (page_limit limit + 1) ps)

-- `List` over the cache of first pages, by user, while Redis and the database answer (Listing has
-- their failures): the cache is asked, and filled, when the cursor is 0.
unfoldable pub list_cached :
    ℕ → ℕ → ℤ → Table Product → Table ListResult → ListResult × Table ListResult
unfolding list_products
list_cached user cursor limit ps pages =
    if cursor == 0
    then elim (lookup user pages) [
      | some r ↦ (r, pages)
      | none ↦ (
        list_products (some user) 0 limit ps,
        (user, list_products (some user) 0 limit ps) ∷ pages,
      )
    ]
    else (list_products (some user) cursor limit ps, pages)
