-- ===== src/Auth/Handler.antt =====
-- internal/http/auth/handler.go: the HTTP handlers of authentication, over the service. A body is
-- what its binding and the check of its tags give.
use go_commerce.Base.{ℕ, Bool, Option, none, some}
use go_commerce.Base.Text.{Text}
use go_commerce.Domain.Errors.{
  Error, error_code, Result, ok, err, invalid, unauthorized, token_expired, email_taken, not_found,
  forbidden,
}
use go_commerce.Store.Table.{lookup}
use go_commerce.Store.Rows.{Env}
use go_commerce.Web.{Response, failure, Handled, responds, as_user, with_param}
use go_commerce.Auth.{
  Claims, Parsed, AuthTokens, Sessions, Step, UserModel, register, login, refresh, logout,
}

-- `mapErr`
unfoldable pub auth_error : {A : Type 0} → Error → Response A
unfolding error_code
auth_error invalid = failure 400 (some (error_code invalid))
auth_error unauthorized = failure 401 (some (error_code unauthorized))
auth_error token_expired = failure 401 (some (error_code token_expired))
auth_error email_taken = failure 409 (some (error_code email_taken))
auth_error not_found = failure 404 (some (error_code not_found))
auth_error forbidden = failure 403 (some (error_code forbidden))
auth_error e = failure 500 (some (error_code e))

pub record RegisterRequest : Type 0 where
  pub name : Text
  pub email : Text
  pub password : Text

pub record LoginRequest : Type 0 where
  pub email : Text
  pub password : Text

abbrev pub found_user : Option UserModel → Result UserModel
found_user none = err not_found
found_user (some u) = ok u

-- `Service.Me`
unfoldable pub me : ℕ → Step UserModel
me id s = (found_user (lookup id s.users), s)

unfoldable pub get_me : Option ℕ → Handled Sessions UserModel
unfolding me auth_error
get_me id = as_user id none λ u s. responds 200 auth_error (me u s)

module _ (hash : Text → Option Text) (matches : Text → Text → Bool) (sign : Claims → Text)
    (parse : Text → Parsed) (has_cache : Bool) where
  unfoldable pub post_register : Env → Option RegisterRequest → Handled Sessions (ℕ × AuthTokens)
  unfolding register auth_error
  post_register env body = with_param body none λ req s.
      responds 201 auth_error
        (register hash matches sign parse has_cache env req.name req.email req.password s)

  unfoldable pub post_login : Env → Option LoginRequest → Handled Sessions (ℕ × AuthTokens)
  unfolding login auth_error
  post_login env body = with_param body none λ req s.
      responds 200 auth_error (login hash matches sign parse has_cache env req.email req.password s)

  unfoldable pub post_refresh : Env → Option Text → Handled Sessions AuthTokens
  unfolding refresh auth_error
  post_refresh env body =
      with_param body none
        λ token s. responds 200 auth_error (refresh hash matches sign parse has_cache env token s)

  unfoldable pub post_logout : Option Text → Handled Sessions (Unit {0})
  unfolding logout auth_error
  post_logout body =
      with_param body none
        λ token s. responds 200 auth_error (logout hash matches sign parse has_cache token s)
