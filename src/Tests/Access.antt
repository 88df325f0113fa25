-- ===== src/Tests/Access.antt =====
-- Runs of the filters of the API.
use go_commerce.Base.{
  ◌++◌, ℕ, ◌≡◌, refl, true, Option, none, some, [], ◌∷◌, ◌==◌, if◌then◌else◌, inr,
}
use go_commerce.Base.Int.{pos}
use go_commerce.Base.Text.{Text, codes, text_eq, to_lower, trim_space}
use go_commerce.Domain.Errors.{service_unavailable, ok}
use go_commerce.Auth.Renewal.{live_token_is_exchanged}
use go_commerce.Auth.{UserModel, is_live, refresh, tokens_of}
use go_commerce.Base.{false}
use go_commerce.Auth.{
  Role, user, admin, TokenType, untyped, access, refresh_type, other_type, Claims, Parsed, valid,
  bad, Sessions, login,
}
use go_commerce.Access.{
  Context, abort, RateResult, with_rate, api_key, rate_limit, auth, require_role, strip_prefix,
  constant_time_equal, parse_access_token, guarded, api_group,
}
use go_commerce.Access.Gate.{Admitted, guarded_admits}
use go_commerce.Access.Outage.{outage_closes_authentication}
use go_commerce.Access.Tokens.{LoggedIn, login_separates_tokens}
use go_commerce.Auth.{exists_key, rotate, and_then}
use go_commerce.Auth.Renewal.{calm}
use go_commerce.Auth.Race.{after_check, race_spends_token_twice}
use go_commerce.Tests.{env, later}

abbrev role_code : Role → ℕ
role_code user = 0
role_code admin = 1

abbrev type_code : TokenType → ℕ
type_code untyped = 0
type_code access = 1
type_code refresh_type = 2
type_code other_type = 3

abbrev sign : Claims → Text
sign c = c.user_id ∷ role_code c.role ∷ type_code c.token_type ∷ c.id

abbrev role_at : ℕ → Role
role_at n = if n == 0 then user else admin

abbrev type_at : ℕ → TokenType
type_at n =
    if n == 0
    then untyped
    else if n == 1
    then access
    else if n == 2
    then refresh_type
    else other_type

abbrev parse : Text → Parsed
parse (u ∷ r ∷ t ∷ i) =
    valid record { user_id = u; role = role_at r; token_type = type_at t; id = i }
parse _ = bad

parse-sign : (c : Claims) → parse (sign c) ≡ valid c
parse-sign c = rw (role_back c.role, type_back c.token_type) refl
  where
    role_back : (r : Role) → role_at (role_code r) ≡ r
    role_back user = refl
    role_back admin = refl

    type_back : (t : TokenType) → type_at (type_code t) ≡ t
    type_back untyped = refl
    type_back access = refl
    type_back refresh_type = refl
    type_back other_type = refl

abbrev root_claims : Claims
root_claims = record { user_id = 4; role = admin; token_type = access; id = [] }

abbrev fulfil_request : Context
fulfil_request = record {
  authorization = codes "Bearer " ++ sign root_claims;
  apikey = [];
  x_api_key = codes "k";
  full_path = codes "/api/v1/orders/:id/fulfill";
  path = codes "/api/v1/orders/1/fulfill";
  user_id = none;
  user_role = none;
  headers = [];
}

abbrev two_left : RateResult
two_left = record {
  rate = pos 100;
  allowed = pos 1;
  remaining = pos 2;
  reset_after = pos 30;
  retry_after = pos 0;
}

abbrev fulfilling : Context
fulfilling = record (with_rate two_left fulfil_request) { user_id = some 4; user_role = some admin }

guarded_admits_example :
    Admitted parse (codes "k") (some (some two_left)) (admin ∷ []) fulfil_request fulfilling
unfolding guarded api_key rate_limit auth require_role strip_prefix constant_time_equal
    parse_access_token text_eq
guarded_admits_example =
    guarded_admits parse (codes "k") (some (some two_left)) (admin ∷ []) fulfil_request fulfilling
      refl

abbrev login_request : Context
login_request = record fulfil_request { path = codes "/api/v1/authentication/login" }

outage_closes_authentication_example :
    api_group (codes "k") (some none) login_request ≡ abort 503 service_unavailable
outage_closes_authentication_example =
    outage_closes_authentication (codes "k") (codes "/api/v1") (codes "login") login_request
      (inr refl) refl

abbrev hash : Text → Option Text
hash s = some s

abbrev accounts : Sessions
accounts = record {
  users =
      (1, record { name = codes "a"; email = codes "a@b"; password_hash = codes "pw"; role = user })
      ∷ [];
  serial = 2;
  live = [];
  replies = [];
}

login_separates_tokens_example :
    LoggedIn hash text_eq sign parse true parse-sign env
      (codes " A@b")
      (codes "pw")
      accounts
      (login hash text_eq sign parse true env (codes " A@b") (codes "pw") accounts).1
      1
      record { access_token = 1 ∷ 0 ∷ 1 ∷ []; refresh_token = 1 ∷ 0 ∷ 2 ∷ env.uuid }
unfolding login text_eq to_lower trim_space
login_separates_tokens_example =
    login_separates_tokens hash text_eq sign parse true parse-sign env (codes " A@b") (codes "pw")
      accounts 1 _ refl

-- A refresh token of account 1 that is in use.
abbrev old_claims : Claims
old_claims = record { user_id = 1; role = user; token_type = refresh_type; id = codes "r0" }

abbrev account : UserModel
account = record { name = codes "a"; email = codes "a@b"; password_hash = codes "pw"; role = user }

abbrev signed_in : Sessions
signed_in = record accounts { live = codes "r0" ∷ [] }

live_token_is_exchanged_example :
    (t : Sessions) × (refresh hash text_eq sign parse true env (sign old_claims) signed_in
      ≡ (ok (tokens_of hash text_eq sign parse true env 1 user), t))
    × (is_live env.uuid t.live ≡ true)
    × (is_live (codes "r0") t.live ≡ false)
    × (t.users ≡ signed_in.users)
unfolding is_live text_eq
live_token_is_exchanged_example =
    live_token_is_exchanged hash text_eq sign parse env signed_in (sign old_claims) old_claims
      account refl refl refl refl refl refl refl refl refl

race_spends_token_twice_example :
    (t : Sessions) × (v : Sessions) × (exists_key (codes "r0") (calm signed_in)
      ≡ (ok true, calm signed_in))
    × (exists_key (codes "r0") (exists_key (codes "r0") (calm signed_in)).1
        ≡ (ok true, calm signed_in))
    × (after_check hash text_eq sign parse env old_claims true (calm signed_in)
        ≡ (ok (tokens_of hash text_eq sign parse true env 1 user), t))
    × (after_check hash text_eq sign parse later old_claims true t
        ≡ (ok (tokens_of hash text_eq sign parse true later 1 user), v))
    × (rotate hash text_eq sign parse true env old_claims (calm signed_in)
        ≡ and_then
            (exists_key (codes "r0"))
            (after_check hash text_eq sign parse env old_claims)
            (calm signed_in))
unfolding is_live text_eq
race_spends_token_twice_example =
    race_spends_token_twice hash text_eq sign parse env later old_claims account signed_in refl refl
      refl refl refl
