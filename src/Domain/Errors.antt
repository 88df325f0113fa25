-- ===== src/Domain/Errors.antt =====
-- internal/domain/errors.go: the sentinel errors, their stable machine codes, and the HTTP
-- statuses that the handlers of orders and of products give them. `internal` is any error that
-- wraps no sentinel.
use go_commerce.Base.{ℕ}

pub data Error : Type 0 where
  not_found invalid unauthorized forbidden email_taken conflict : Error
  rate_limited unavailable token_expired invalid_api_key internal : Error

pub data ErrorCode : Type 0 where
  resource_not_found validation_error auth_email_taken resource_conflict : ErrorCode
  auth_token_expired auth_unauthorized auth_invalid_api_key auth_forbidden : ErrorCode
  rate_limit_exceeded service_unavailable internal_error : ErrorCode

unfoldable pub error_code : Error → ErrorCode
error_code not_found = resource_not_found
error_code invalid = validation_error
error_code email_taken = auth_email_taken
error_code conflict = resource_conflict
error_code token_expired = auth_token_expired
error_code unauthorized = auth_unauthorized
error_code invalid_api_key = auth_invalid_api_key
error_code forbidden = auth_forbidden
error_code rate_limited = rate_limit_exceeded
error_code unavailable = service_unavailable
error_code internal = internal_error

-- The status that `mapErr` of internal/http/order/handler.go answers.
unfoldable pub map_err : Error → ℕ
map_err invalid = 400
map_err unauthorized = 401
map_err token_expired = 401
map_err forbidden = 403
map_err not_found = 404
map_err conflict = 409
map_err unavailable = 503
map_err _ = 500

-- A call that may fail.
pub data Result {ℓ} (A : Type ℓ) : Type ℓ where
  ok : A → Result A
  err : Error → Result A
