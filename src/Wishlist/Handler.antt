-- ===== src/Wishlist/Handler.antt =====
-- internal/http/wishlist/handler.go.
use go_commerce.Base.{Bool, ℕ, Option, none, some, List}
use go_commerce.Base.Text.{Text}
use go_commerce.Domain.Errors.{Error, not_found, invalid, conflict, unauthorized, error_code}
use go_commerce.Web.{Response, failure, Handled, responds, as_user, with_param}
use go_commerce.Base.Digits.{parse_uint}
use go_commerce.Wishlist.{Store, Item, add, remove, list, count}

-- `mapErr`
unfoldable pub wishlist_error : {A : Type 0} → Error → Response A
unfolding error_code
wishlist_error not_found = failure 404 (some (error_code not_found))
wishlist_error invalid = failure 400 (some (error_code invalid))
wishlist_error conflict = failure 409 (some (error_code conflict))
wishlist_error _ = failure 500 none

pub record AddRequest : Type 0 where
  pub product_id : ℕ
  pub note : Text

abbrev signed_in : {A : Type 0} → Option ℕ → (ℕ → Handled Store A) → Handled Store A
unfolding error_code
signed_in user f = as_user user (some (error_code unauthorized)) f

module _ (has_cache : Bool) where
  unfoldable pub post_item : ℕ → Option ℕ → Option AddRequest → Handled Store Item
  unfolding add wishlist_error error_code
  post_item now user body = signed_in user λ u.
      with_param body none
        λ req s. responds 201 wishlist_error (add has_cache now u req.product_id req.note s)

  unfoldable pub get_count : Option ℕ → Handled Store ℕ
  unfolding count wishlist_error error_code
  get_count user = signed_in user λ u s. responds 200 wishlist_error (count has_cache u s)

  unfoldable pub delete_item_by_id : Option ℕ → Text → Handled Store (Unit {0})
  unfolding remove wishlist_error parse_uint error_code
  delete_item_by_id user raw = signed_in user λ u.
      with_param (parse_uint raw) none λ id s. responds 200 wishlist_error (remove has_cache u id s)

unfoldable pub get_items : Option ℕ → Handled Store (List Item)
unfolding list wishlist_error error_code
get_items user = signed_in user λ u s. responds 200 wishlist_error (list u s)
