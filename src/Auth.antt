-- ===== src/Auth.antt =====
-- internal/http/auth: registration, login and the rotation of refresh tokens. Hashing (bcrypt) and
-- the signing and parsing of tokens (golang-jwt) are not this code: they are parameters. How Redis,
-- which keeps the ids of live refresh tokens, answers a command is a `Reply`, read from a list, one
-- to a command; that a key expires there is not modelled.
use go_commerce.Base.{
  ℕ, ◌+◌, ◌≡◌, refl, Bool, true, false, not, ◌&&◌, ◌||◌, Option, none, some, List, [], ◌∷◌, ◌++◌,
  ltb, if◌then◌else◌, length, where_rows, first_row, is_some,
}
use go_commerce.Base.Text.{Text, text_eq, is_empty, trim_space, to_lower}
use go_commerce.Domain.Errors.{
  Error, Result, ok, err, invalid, unauthorized, not_found, email_taken, token_expired, internal,
}
use go_commerce.Store.Table.{Table, lookup, insert}
use go_commerce.Store.Rows.{Env}
use go_commerce.Workers.Audit.{Reply, next_reply, other_replies, heard, arrives}
pub mod Rotation
pub mod Renewal
pub mod Race
pub mod Handler

pub data Role : Type 0 where
  user admin : Role

pub record UserModel : Type 0 where
  pub name : Text
  pub email : Text
  pub password_hash : Text
  pub role : Role

pub data TokenType : Type 0 where
  untyped access refresh_type other_type : TokenType

pub record Claims : Type 0 where
  pub user_id : ℕ
  pub role : Role
  pub token_type : TokenType
  pub id : Text

-- What parsing a token with the secret gives.
pub data Parsed : Type 0 where
  valid : Claims → Parsed
  expired bad : Parsed

pub record AuthTokens : Type 0 where
  pub access_token : Text
  pub refresh_token : Text

pub record Sessions : Type 0 where
  pub users : Table UserModel
  pub serial : ℕ
  pub live : List Text
  pub replies : List Reply

abbrev pub Step : Type 0 → Type 0
Step A = Sessions → Result A × Sessions

module _ {A B : Type 0} where
  abbrev pub given : Result A → Sessions → (A → Step B) → Result B × Sessions
  given (ok a) s f = f a s
  given (err e) s f = (err e, s)

  abbrev pub and_then : Step A → (A → Step B) → Step B
  and_then m f s = given (m s).0 (m s).1 f

abbrev pub has_email : Text → ℕ × UserModel → Bool
has_email email row = text_eq row.1.email email

abbrev pub find_by_email : Text → Table UserModel → Option (ℕ × UserModel)
find_by_email email users = first_row (has_email email) users

-- A command on the keys of Redis: its effect if it arrives, an error if its answer is not heard.
unfoldable pub command : (List Text → List Text) → Step (Unit {0})
command f s = (
  if heard (next_reply s.replies) then ok tt else err internal,
  record s {
    live = if arrives (next_reply s.replies) then f s.live else s.live;
    replies = other_replies s.replies;
  },
)

unfoldable pub is_live : Text → List Text → Bool
is_live id ids = is_some (first_row (text_eq id) ids)

unfoldable pub drop_id : Text → List Text → List Text
drop_id id ids = where_rows (λ x. not (text_eq id x)) ids

-- `storeRefreshJTI`
unfoldable pub store_refresh_jti : Bool → Text → Step (Unit {0})
unfolding command
store_refresh_jti has_cache id =
    if not has_cache || is_empty id then (λ s. (ok tt, s)) else command (λ ids. id ∷ ids)

-- The answer of `Exists`.
abbrev pub exists_key : Text → Step Bool
exists_key id s = (
  if heard (next_reply s.replies) then ok (is_live id s.live) else err internal,
  record s { replies = other_replies s.replies },
)

abbrev pub delete_found : Text → Bool → Step (Unit {0})
delete_found id false s = (err unauthorized, s)
delete_found id true s = command (drop_id id) s

-- `consumeRefreshJTI`: `Exists`, then `Del`, as one step.
unfoldable pub consume_refresh_jti : Bool → Text → Step (Unit {0})
unfolding is_live command drop_id
consume_refresh_jti has_cache id =
    if not has_cache
    then (λ s. (ok tt, s))
    else if is_empty id
    then (λ s. (err unauthorized, s))
    else and_then (exists_key id) (delete_found id)

-- `revokeRefreshJTI`
unfoldable pub revoke_refresh_jti : Bool → Text → Step (Unit {0})
unfolding command drop_id
revoke_refresh_jti has_cache id =
    if not has_cache || is_empty id then (λ s. (ok tt, s)) else command (drop_id id)

abbrev pub is_refresh : TokenType → Bool
is_refresh refresh_type = true
is_refresh _ = false

abbrev pub min_password_len : ℕ
min_password_len = 8

module _ (hash : Text → Option Text) (matches : Text → Text → Bool) (sign : Claims → Text)
    (parse : Text → Parsed) (has_cache : Bool) where
  abbrev pub refresh_claims : Parsed → Result Claims
  refresh_claims (valid c) = if is_refresh c.token_type then ok c else err unauthorized
  refresh_claims expired = err token_expired
  refresh_claims bad = err unauthorized

  unfoldable pub parse_refresh : Text → Result Claims
  parse_refresh token = refresh_claims (parse token)

  abbrev pub tokens_of : Env → ℕ → Role → AuthTokens
  tokens_of env id role = record {
    access_token = sign record { user_id = id; role = role; token_type = access; id = [] };
    refresh_token =
        sign record { user_id = id; role = role; token_type = refresh_type; id = env.uuid };
  }

  unfoldable pub issue_tokens : Env → ℕ → Role → Step AuthTokens
  unfolding store_refresh_jti
  issue_tokens env id role =
      and_then (store_refresh_jti has_cache env.uuid) λ _ s. (ok (tokens_of env id role), s)

  -- `Create` under the unique index of `email`.
  unfoldable pub insert_user : UserModel → Step ℕ
  insert_user u s =
      if is_some (find_by_email u.email s.users)
      then (err email_taken, s)
      else (ok s.serial, record s { users = insert s.serial u s.users; serial = s.serial + 1 })

  abbrev pub new_user : Text → Text → Text → UserModel
  new_user name email password_hash = record {
    name = trim_space name;
    email = to_lower (trim_space email);
    password_hash = password_hash;
    role = user;
  }

  abbrev pub register_hashed : Env → Text → Text → Option Text → Step (ℕ × AuthTokens)
  register_hashed env name email none s = (err internal, s)
  register_hashed env name email (some h) s =
      and_then (insert_user (new_user name email h))
        (λ id. and_then (issue_tokens env id user) λ tokens t. (ok (id, tokens), t)) s

  unfoldable pub register : Env → Text → Text → Text → Step (ℕ × AuthTokens)
  unfolding insert_user issue_tokens
  register env name email password =
      if is_empty (trim_space name)
        || is_empty (to_lower (trim_space email))
        || ltb (length password) min_password_len
      then (λ s. (err invalid, s))
      else register_hashed env name email (hash password)

  abbrev pub login_as : Env → Text → Option (ℕ × UserModel) → Step (ℕ × AuthTokens)
  login_as env password none s = (err unauthorized, s)
  login_as env password (some row) s =
      if matches row.1.password_hash password
      then and_then (issue_tokens env row.0 row.1.role) (λ tokens t. (ok (row.0, tokens), t)) s
      else (err unauthorized, s)

  unfoldable pub login : Env → Text → Text → Step (ℕ × AuthTokens)
  unfolding issue_tokens
  login env email password s =
      if is_empty (to_lower (trim_space email)) || is_empty password
      then (err invalid, s)
      else login_as env password (find_by_email (to_lower (trim_space email)) s.users) s

  abbrev pub issue_to : Env → ℕ → Option UserModel → Step AuthTokens
  issue_to env id none s = (err unauthorized, s)
  issue_to env id (some u) s = issue_tokens env id u.role s

  abbrev pub rotate : Env → Claims → Step AuthTokens
  rotate env c =
      and_then (consume_refresh_jti has_cache c.id)
        λ _ s. issue_to env c.user_id (lookup c.user_id s.users) s

  abbrev pub rotate_parsed : Env → Result Claims → Step AuthTokens
  rotate_parsed env (err e) s = (err e, s)
  rotate_parsed env (ok c) s = rotate env c s

  unfoldable pub refresh : Env → Text → Step AuthTokens
  unfolding parse_refresh consume_refresh_jti issue_tokens
  refresh env token s =
      if is_empty token then (err invalid, s) else rotate_parsed env (parse_refresh token) s

  abbrev pub revoke_parsed : Result Claims → Step (Unit {0})
  revoke_parsed (err e) s = (err e, s)
  revoke_parsed (ok c) s = revoke_refresh_jti has_cache c.id s

  unfoldable pub logout : Text → Step (Unit {0})
  unfolding parse_refresh revoke_refresh_jti
  logout token s =
      if is_empty token then (err invalid, s) else revoke_parsed (parse_refresh token) s
