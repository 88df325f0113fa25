-- ===== src/Wishlist.antt =====
-- internal/http/wishlist: a user's list of products, and a cache of its length. Each statement of
-- Postgres and each command of Redis takes one `Reply` from a list: whether it is served, and
-- whether its answer comes back. That a cached count expires is not modelled.
use go_commerce.Base.{
  ℕ, zero, suc, ◌+◌, Bool, true, false, not, ◌&&◌, Option, none, some, List, [], ◌∷◌, map, ◌==◌,
  if◌then◌else◌, length, where_rows, is_some, first_row,
}
use go_commerce.Base.Text.{Text, trim_space}
use go_commerce.Domain.Errors.{Error, Result, ok, err, invalid, not_found, conflict, internal}
use go_commerce.Domain.Calls.{Call, given, and_then, return, fails, attempt}
use go_commerce.Store.Table.{Table, lookup, insert}
use go_commerce.Store.Models.{Product}
use go_commerce.Workers.Audit.{Reply, next_reply, other_replies, heard, arrives}
use go_commerce.Products.{find_product}
use go_commerce.Orders.Queries.{newest_first}
pub mod Handler
pub mod Counts
pub mod Added

pub record WishlistModel : Type 0 where
  pub user_id : ℕ
  pub product_id : ℕ
  pub note : Text
  pub created_at : ℕ

-- The tables, the cached counts by user, and the answers to come.
pub record Store : Type 0 where
  pub rows : Table WishlistModel
  pub serial : ℕ
  pub products : Table Product
  pub counts : Table ℕ
  pub replies : List Reply

pub record Item : Type 0 where
  pub id : ℕ
  pub product_id : ℕ
  pub product_name : Text
  pub price : ℕ
  pub note : Text
  pub created_at : ℕ

-- A statement or a command: what it does if it arrives, an error if its answer is not heard.
abbrev pub request : {A : Type 0} → (Store → Result A × Store) → Call Store A
request f s =
    let rest = record s { replies = other_replies s.replies } in
    (
      if heard (next_reply s.replies) then (f rest).0 else err internal,
      if arrives (next_reply s.replies) then (f rest).1 else rest,
    )

abbrev pub same_item : ℕ → ℕ → ℕ × WishlistModel → Bool
same_item user product row = (row.1.user_id == user) && (row.1.product_id == product)

abbrev pub has_item : ℕ → ℕ → Table WishlistModel → Bool
has_item user product rows = is_some (first_row (same_item user product) rows)

abbrev pub insert_item : WishlistModel → Store → Result ℕ × Store
insert_item row s =
    if has_item row.user_id row.product_id s.rows
    then (err conflict, s)
    else (ok s.serial, record s { rows = insert s.serial row s.rows; serial = s.serial + 1 })

-- `repository.Create`, under the unique index on user and product.
unfoldable pub create : WishlistModel → Call Store ℕ
create row = request (insert_item row)

abbrev pub is_of : ℕ → ℕ × WishlistModel → Bool
is_of user row = row.1.user_id == user

-- `repository.ListByUser`
unfoldable pub list_by_user : ℕ → Call Store (Table WishlistModel)
unfolding newest_first
list_by_user user = request λ s. (ok (newest_first (where_rows (is_of user) s.rows)), s)

abbrev pub is_owned : ℕ → ℕ → ℕ × WishlistModel → Bool
is_owned user id row = (row.0 == id) && (row.1.user_id == user)

abbrev pub delete_owned : ℕ → ℕ → Store → Result (Unit {0}) × Store
delete_owned user id s = (
  if is_some (first_row (is_owned user id) s.rows) then ok tt else err not_found,
  record s { rows = where_rows (λ row. not (is_owned user id row)) s.rows },
)

-- `repository.Delete`
unfoldable pub delete_item : ℕ → ℕ → Call Store (Unit {0})
delete_item user id = request (delete_owned user id)

abbrev pub count_rows : ℕ → Table WishlistModel → ℕ
count_rows user rows = length (where_rows (is_of user) rows)

-- `repository.CountByUser`
unfoldable pub count_by_user : ℕ → Call Store ℕ
count_by_user user = request λ s. (ok (count_rows user s.rows), s)

abbrev pub found_product : Option Product → Result Product
found_product none = err not_found
found_product (some p) = ok p

-- `products.FindByID`
unfoldable pub load_product : ℕ → Call Store Product
unfolding find_product
load_product id = request λ s. (found_product (find_product id s.products), s)

abbrev pub drop_count : ℕ → Table ℕ → Table ℕ
drop_count user counts = where_rows (λ c. not (c.0 == user)) counts

-- `invalidateCountCache`
unfoldable pub invalidate_count_cache : Bool → ℕ → Call Store (Unit {0})
invalidate_count_cache false user = return tt
invalidate_count_cache true user =
    request λ s. (ok tt, record s { counts = drop_count user s.counts })

abbrev pub to_item : ℕ → WishlistModel → Text → ℕ → Item
to_item id row name price = record {
  id = id;
  product_id = row.product_id;
  product_name = name;
  price = price;
  note = row.note;
  created_at = row.created_at;
}

-- The row of a request to add.
abbrev pub new_row : ℕ → ℕ → ℕ → Text → WishlistModel
new_row now user product note = record {
  user_id = user;
  product_id = product;
  note = trim_space note;
  created_at = now;
}

module _ (has_cache : Bool) where
  -- A failure to drop the cached count is ignored.
  abbrev pub invalidated : {A : Type 0} → ℕ → A → Call Store A
  unfolding invalidate_count_cache
  invalidated user a = and_then (attempt (invalidate_count_cache has_cache user)) (λ _. return a)

  abbrev pub add_found : ℕ → ℕ → ℕ → Text → Product → Call Store Item
  unfolding create trim_space invalidate_count_cache
  add_found now user product note p =
      and_then (create (new_row now user product note))
        λ id. invalidated user (to_item id (new_row now user product note) p.name p.price)

  unfoldable pub add : ℕ → ℕ → ℕ → Text → Call Store Item
  unfolding load_product create trim_space invalidate_count_cache
  add now user product note =
      if product == 0
      then fails invalid
      else and_then (load_product product) (add_found now user product note)

  unfoldable pub remove : ℕ → ℕ → Call Store (Unit {0})
  unfolding delete_item invalidate_count_cache
  remove user id = and_then (delete_item user id) (invalidated user)

-- `Get` of an unset key is an error.
abbrev pub cached_count : ℕ → Call Store ℕ
cached_count user =
    request λ s. (elim (lookup user s.counts) [ none ↦ err not_found | some n ↦ ok n ], s)

abbrev pub cache_count : ℕ → ℕ → Call Store (Unit {0})
cache_count user n =
    request λ s. (ok tt, record s { counts = (user, n) ∷ drop_count user s.counts })

-- A failure to cache the count is ignored.
abbrev pub count_and_cache : Bool → ℕ → Call Store ℕ
unfolding count_by_user
count_and_cache has_cache user =
    and_then (count_by_user user)
      λ n. if has_cache then and_then (attempt (cache_count user n)) (λ _. return n) else return n

abbrev pub count_missed : Bool → ℕ → Result ℕ → Call Store ℕ
unfolding count_by_user
count_missed has_cache user (ok n) = return n
count_missed has_cache user (err e) = count_and_cache has_cache user

-- `Count`
unfoldable pub count : Bool → ℕ → Call Store ℕ
unfolding count_by_user
count false user = count_and_cache false user
count true user = and_then (attempt (cached_count user)) (count_missed true user)

-- A product that cannot be read leaves its name empty and its price 0.
abbrev pub item_of : ℕ → WishlistModel → Result Product → Item
item_of id row (ok p) = to_item id row p.name p.price
item_of id row (err e) = to_item id row [] 0

abbrev pub items_of : Table WishlistModel → Call Store (List Item)
unfolding load_product
items_of [] = return []
items_of ((id, row) ∷ rows) =
    and_then (attempt (load_product row.product_id))
      λ found. and_then (items_of rows) λ items. return (item_of id row found ∷ items)

-- `List`
unfoldable pub list : ℕ → Call Store (List Item)
unfolding list_by_user load_product
list user = and_then (list_by_user user) items_of
