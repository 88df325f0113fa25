-- ===== src/Access.antt =====
-- internal/http/middleware: the filters in front of the handlers. A filter passes the request on to
-- the next one, or answers it with a status and an error code. Parsing a token with the secret
-- (golang-jwt) and what the rate limiter answers (go-redis/redis_rate) are parameters.
use go_commerce.Base.{
  ℕ, Bool, true, false, ◌||◌, Option, none, some, List, [], ◌∷◌, ◌==◌, if◌then◌else◌, is_some,
}
use go_commerce.Base.Int.{ℤ, pos, negsuc}
use go_commerce.Base.Text.{Text, codes, text_eq, is_empty}
use go_commerce.Domain.Errors.{
  Error, ErrorCode, Result, ok, err, unauthorized, forbidden, rate_limited, unavailable,
  invalid_api_key, token_expired, error_code,
}
use go_commerce.Auth.{
  Role, user, admin, TokenType, untyped, access, Claims, Parsed, valid, expired, bad,
}
pub mod Gate
pub mod Outage
pub mod Tokens

-- `strings.TrimPrefix` where `strings.HasPrefix` holds.
unfoldable pub strip_prefix : Text → Text → Option Text
strip_prefix [] s = some s
strip_prefix (c ∷ p) [] = none
strip_prefix (c ∷ p) (d ∷ s) = if c == d then strip_prefix p s else none

-- `strings.Contains`
unfoldable pub contains : Text → Text → Bool
unfolding strip_prefix
contains [] p = is_some (strip_prefix p [])
contains (c ∷ s) p = is_some (strip_prefix p (c ∷ s)) || contains s p

-- The headers that the rate limit sets.
pub data RateHeader : Type 0 where
  limit remaining reset retry_after : RateHeader

-- `gin.Context`: what the filters read of a request, and what they set.
pub record Context : Type 0 where
  pub authorization : Text
  pub apikey : Text
  pub x_api_key : Text
  pub full_path : Text
  pub path : Text
  pub user_id : Option ℕ
  pub user_role : Option Role
  pub headers : List (RateHeader × ℕ)

pub data Outcome : Type 0 where
  next : Context → Outcome
  abort : ℕ → ErrorCode → Outcome

abbrev pub Filter : Type 0
Filter = Context → Outcome

abbrev pub and_next : Outcome → Filter → Outcome
and_next (next c) f = f c
and_next (abort status code) f = abort status code

-- The filters of a group run in order until one aborts.
abbrev pub run_all : List Filter → Filter
run_all [] c = next c
run_all (f ∷ fs) c = and_next (f c) (run_all fs)

abbrev pub refused : ℕ → Error → Outcome
refused status e = abort status (error_code e)

-- Whether two keys are the same; that it takes the same time for each is not modelled.
unfoldable pub constant_time_equal : Text → Text → Bool
unfolding text_eq
constant_time_equal a b = text_eq a b

abbrev pub key_of : Context → Text
key_of c = if is_empty c.apikey then c.x_api_key else c.apikey

unfoldable pub api_key : Text → Filter
unfolding constant_time_equal error_code
api_key expected c =
    if is_empty expected
    then next c
    else if constant_time_equal (key_of c) expected
    then next c
    else refused 401 invalid_api_key

abbrev pub access_claims : Parsed → Result Claims
access_claims (valid c) = elim c.token_type [
  | untyped ↦ ok c
  | access ↦ ok c
  | _ ↦ err unauthorized
]
access_claims expired = err token_expired
access_claims bad = err unauthorized

-- `redis_rate.Result`, its durations in seconds.
pub record RateResult : Type 0 where
  pub rate : ℤ
  pub allowed : ℤ
  pub remaining : ℤ
  pub reset_after : ℤ
  pub retry_after : ℤ

-- The number that `itoa` prints.
abbrev pub itoa : ℤ → ℕ
itoa (pos n) = n
itoa (negsuc n) = 0

abbrev pub is_zero : ℤ → Bool
is_zero (pos n) = n == 0
is_zero (negsuc n) = false

abbrev pub authentication_path : Text
authentication_path = codes "/authentication/"

abbrev pub on_authentication : Context → Bool
on_authentication c =
    contains c.full_path authentication_path || contains c.path authentication_path

abbrev pub with_rate : RateResult → Context → Context
with_rate r c = record c {
  headers =
      (limit, itoa r.rate)
      ∷ (remaining, itoa r.remaining)
      ∷ (reset, itoa r.reset_after)
      ∷ c.headers;
}

abbrev pub rate_checked : Option RateResult → Filter
unfolding contains
rate_checked none c = if on_authentication c then refused 503 unavailable else next c
rate_checked (some r) c =
    if is_zero r.allowed then refused 429 rate_limited else next (with_rate r c)

-- What the limiter answers: `none` is an error. There may be no limiter.
unfoldable pub rate_limit : Option (Option RateResult) → Filter
unfolding contains error_code
rate_limit none c = next c
rate_limit (some answer) c = rate_checked answer c

abbrev pub is_role : Role → Role → Bool
is_role user user = true
is_role admin admin = true
is_role _ _ = false

abbrev pub allows : List Role → Role → Bool
allows [] r = false
allows (a ∷ rest) r = is_role a r || allows rest r

abbrev pub require_known : List Role → Option Role → Filter
require_known roles none c = refused 401 unauthorized
require_known roles (some r) c = if allows roles r then next c else refused 403 forbidden

unfoldable pub require_role : List Role → Filter
unfolding error_code
require_role roles c = require_known roles c.user_role c

-- The filters in front of every route of the API.
unfoldable pub api_group : Text → Option (Option RateResult) → Filter
unfolding api_key rate_limit
api_group expected answer = run_all (api_key expected ∷ rate_limit answer ∷ [])

module _ (parse : Text → Parsed) where
  unfoldable pub parse_access_token : Text → Result Claims
  parse_access_token token = access_claims (parse token)

  abbrev pub auth_as : Result Claims → Filter
  auth_as (err e) c = refused 401 e
  auth_as (ok claims) c =
      next record c { user_id = some claims.user_id; user_role = some claims.role }

  abbrev pub auth_bearer : Option Text → Filter
  auth_bearer none c = refused 401 unauthorized
  auth_bearer (some token) c = auth_as (parse_access_token token) c

  unfoldable pub auth : Filter
  unfolding strip_prefix parse_access_token error_code
  auth c = auth_bearer (strip_prefix (codes "Bearer ") c.authorization) c

  -- The filters in front of a route of the API that wants one of `roles`.
  unfoldable pub guarded : Text → Option (Option RateResult) → List Role → Filter
  unfolding api_key rate_limit auth require_role
  guarded expected answer roles =
      run_all (api_key expected ∷ rate_limit answer ∷ auth ∷ require_role roles ∷ [])
