-- ===== src/Products/Handler.antt =====
-- internal/http/product/handler.go: the HTTP handlers of products, over the service. The statements
-- of all but the listings do not fail here.
use go_commerce.Base.{
  ℕ, zero, suc, Bool, true, false, ◌||◌, Option, none, some, List, ◌==◌, if◌then◌else◌,
}
use go_commerce.Base.Int.{ℤ, pos, negsuc}
use go_commerce.Base.Text.{Text, is_empty}
use go_commerce.Base.Digits.{parse_uint, atoi}
use go_commerce.Domain.Errors.{
  Error, error_code, invalid, unauthorized, token_expired, forbidden, not_found, unavailable,
}
use go_commerce.Store.Table.{Table}
use go_commerce.Store.Models.{Product}
use go_commerce.Auth.{Role, admin}
use go_commerce.Web.{Response, failure, Handled, responds, as_user, with_param}
use go_commerce.Products.{
  CreateInput, UpdateInput, Shop, ListResult, create_product, get_product, update_product,
  delete_product,
}
use go_commerce.Domain.Calls.{and_then, return}
use go_commerce.Products.Listing.{Desk, list_rows, list_by_user, list_for}
use go_commerce.Search.{Remote, ProductDocument, search_products}

-- `mapErr`
unfoldable pub product_error : {A : Type 0} → Error → Response A
unfolding error_code
product_error invalid = failure 400 (some (error_code invalid))
product_error unauthorized = failure 401 (some (error_code unauthorized))
product_error token_expired = failure 401 (some (error_code token_expired))
product_error forbidden = failure 403 (some (error_code forbidden))
product_error not_found = failure 404 (some (error_code not_found))
product_error unavailable = failure 503 (some (error_code unavailable))
product_error e = failure 500 (some (error_code e))

abbrev pub nonzero : Option ℕ → Option ℕ
nonzero none = none
nonzero (some zero) = none
nonzero (some (suc n)) = some (suc n)

-- `parseID`
unfoldable pub parse_product_id : Text → Option ℕ
unfolding parse_uint
parse_product_id raw = nonzero (parse_uint raw)

unfoldable pub parse_cursor : Text → Option ℕ
unfolding parse_product_id
parse_cursor raw = if is_empty raw then some 0 else parse_product_id raw

abbrev pub int_or : ℤ → Option ℤ → ℤ
int_or fallback none = fallback
int_or fallback (some n) = n

-- `queryInt`: no text is no number.
unfoldable pub query_int : Text → ℤ → ℤ
unfolding atoi
query_int raw fallback = int_or fallback (atoi raw)

pub record CreateRequest : Type 0 where
  pub name : Text
  pub description : Text
  pub price : ℤ
  pub stock : ℤ

abbrev pub is_zero : ℤ → Bool
is_zero (pos n) = n == 0
is_zero (negsuc n) = false

-- The tags `validate:"required"` of the name and the price.
unfoldable pub validated : Option CreateRequest → Option CreateRequest
validated none = none
validated (some r) = if is_empty r.name || is_zero r.price then none else some r

abbrev pub input_of : ℕ → CreateRequest → CreateInput
input_of user r = record {
  user_id = user;
  name = r.name;
  description = r.description;
  price = r.price;
  stock = r.stock;
}

unfoldable pub post_product : ℕ → Option ℕ → Option CreateRequest → Handled Shop ℕ
unfolding create_product validated product_error
post_product now user body = as_user user none λ u.
    with_param (validated body) none
      λ r s. responds 201 product_error (create_product now (input_of u r) s)

unfoldable pub get_product_by_id : Option Product → Text → Handled Shop Product
unfolding get_product parse_product_id product_error
get_product_by_id cached raw =
    with_param (parse_product_id raw) none
      λ id s. responds 200 product_error (get_product cached id s)

unfoldable pub put_product : ℕ → Option ℕ → Text → Option UpdateInput → Handled Shop Product
unfolding update_product parse_product_id product_error
put_product now user raw body = as_user user none λ u.
    with_param (parse_product_id raw) none
      λ id. with_param body none λ i s. responds 200 product_error (update_product now u id i s)

abbrev pub is_admin : Option Role → Bool
is_admin (some admin) = true
is_admin _ = false

unfoldable pub delete_product_by_id : Option ℕ → Option Role → Text → Handled Shop (Unit {0})
unfolding delete_product parse_product_id product_error error_code
delete_product_by_id user role raw = as_user user (some (error_code unauthorized)) λ u.
    with_param (parse_product_id raw) none
      λ id s. responds 200 product_error (delete_product u (is_admin role) id s)

-- A page and its `PageMeta`, whose limit is the one of the query.
pub record Page : Type 0 where
  pub items : Table Product
  pub limit : ℤ
  pub next_cursor : ℕ
  pub has_more : Bool

abbrev pub page_with : ℤ → ListResult → Page
page_with limit r = record {
  items = r.items;
  limit = limit;
  next_cursor = r.next_cursor;
  has_more = r.has_more;
}

-- The page for a user, or for all.
unfoldable pub get_page : Bool → Option ℕ → Text → Text → Handled Desk Page
unfolding list_by_user list_rows parse_cursor query_int error_code product_error
get_page has_cache user cursor limit =
    with_param (parse_cursor cursor) (some (error_code invalid)) λ c d. responds 200 product_error (
      and_then (list_for has_cache user c (query_int limit (pos 20)))
        (λ r. return (page_with (query_int limit (pos 20)) r)) d)

unfoldable pub get_products : Bool → Option ℕ → Text → Text → Handled Desk Page
unfolding get_page error_code
get_products has_cache user cursor limit =
    as_user user (some (error_code unauthorized)) λ u. get_page has_cache (some u) cursor limit

unfoldable pub get_catalog : Bool → Text → Text → Handled Desk Page
unfolding get_page
get_catalog has_cache cursor limit = get_page has_cache none cursor limit

unfoldable pub get_search : (Text → ℕ) → Bool → Text → Text → Handled Remote (List ProductDocument)
unfolding search_products query_int product_error
get_search parse_float has_search query limit w =
    responds 200 product_error
      (search_products parse_float has_search query (query_int limit (pos 20)) w)
