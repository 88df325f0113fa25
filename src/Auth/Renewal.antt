-- ===== src/Auth/Renewal.antt =====
-- A live refresh token is exchanged for new tokens.
use go_commerce.Base.{
  ℕ, ◌≡◌, refl, sym, ap, ◌∙◌, Bool, true, false, Option, some, List, [], ◌∷◌, if◌then◌else◌,
}
use go_commerce.Base.Text.{Text, text_eq, text_eq_refl, is_empty}
use go_commerce.Domain.Errors.{Result, ok, err, invalid}
use go_commerce.Store.Table.{lookup}
use go_commerce.Store.Rows.{Env}
use go_commerce.Auth.{
  UserModel, Claims, Parsed, valid, AuthTokens, Sessions, given, command, is_live, drop_id,
  store_refresh_jti, consume_refresh_jti, is_refresh, refresh_claims, parse_refresh, tokens_of,
  issue_tokens, issue_to, rotate, rotate_parsed, refresh,
}
use go_commerce.Auth.Rotation.{is_live-drop_id}

-- No command is to fail.
abbrev pub calm : Sessions → Sessions
calm s = record s { replies = [] }

abbrev rotated : Env → Claims → Sessions → Sessions
unfolding drop_id
rotated env c s = record s { live = env.uuid ∷ drop_id c.id s.live; replies = [] }

consume-calm :
    (id : Text) (s : Sessions)
    → is_empty id ≡ false
    → is_live id s.live ≡ true
    → consume_refresh_jti true id (calm s) ≡ (ok tt, calm (record s { live = drop_id id s.live }))
unfolding consume_refresh_jti command
consume-calm id s named live = rw (named) (rw live refl)

store-calm :
    (env : Env) (s : Sessions)
    → is_empty env.uuid ≡ false
    → store_refresh_jti true env.uuid (calm s)
      ≡ (ok tt, calm (record s { live = env.uuid ∷ s.live }))
unfolding store_refresh_jti command
store-calm env s named = rw named refl

is_live-new :
    (id new : Text) (ids : List Text)
    → text_eq id new ≡ false
    → is_live id ids ≡ false
    → is_live id (new ∷ ids) ≡ false
unfolding is_live
is_live-new id new ids e h = rw e h

is_live_self : (id : Text) (ids : List Text) → is_live id (id ∷ ids) ≡ true
unfolding is_live
is_live_self id ids = rw (text_eq_refl id) refl

module _ (hash : Text → Option Text) (matches : Text → Text → Bool) (sign : Claims → Text)
    (parse : Text → Parsed) (env : Env) (s : Sessions) where
  abbrev pub tokens_for : ℕ → UserModel → AuthTokens
  tokens_for id u = tokens_of hash matches sign parse true env id u.role

  pub issue-calm :
      (t : Sessions) (id : ℕ) (u : UserModel)
      → is_empty env.uuid ≡ false
      → issue_tokens hash matches sign parse true env id u.role (calm t)
        ≡ (ok (tokens_for id u), calm (record t { live = env.uuid ∷ t.live }))
  unfolding issue_tokens
  issue-calm t id u named =
      ap (λ (r : Result (Unit {0}) × Sessions). given r.0 r.1 λ _ x. (ok (tokens_for id u), x))
        (store-calm env t named)

  rotate-calm :
      (c : Claims) (u : UserModel)
      → is_empty c.id ≡ false
      → is_live c.id s.live ≡ true
      → lookup c.user_id s.users ≡ some u
      → is_empty env.uuid ≡ false
      → rotate hash matches sign parse true env c (calm s)
        ≡ (ok (tokens_for c.user_id u), rotated env c s)
  unfolding drop_id rotated
  rotate-calm c u named live known new =
      ap
        (λ (r : Result (Unit {0}) × Sessions).
          given r.0 r.1
            λ _ t. issue_to hash matches sign parse true env c.user_id (lookup c.user_id t.users) t)
        (consume-calm c.id s named live)
      ∙ ap
          (λ o.
            issue_to hash matches sign parse true env c.user_id o
              (calm (record s { live = drop_id c.id s.live })))
          known
      ∙ issue-calm (record s { live = drop_id c.id s.live }) c.user_id u new

-- Where no command of Redis fails: a refresh token whose claims are those of a refresh token, with
-- an id that is live and a user that exists, is exchanged for the two tokens of that user with the
-- user's present role. Afterwards the new id is live, the old one is not, and the users are as
-- before.
pub live_token_is_exchanged :
    (hash : Text → Option Text) (matches : Text → Text → Bool) (sign : Claims → Text)
    (parse : Text → Parsed) (env : Env) (s : Sessions) (token : Text) (c : Claims) (u : UserModel)
    → s.replies ≡ []
    → is_empty token ≡ false
    → parse token ≡ valid c
    → is_refresh c.token_type ≡ true
    → is_empty c.id ≡ false
    → is_live c.id s.live ≡ true
    → lookup c.user_id s.users ≡ some u
    → is_empty env.uuid ≡ false
    → text_eq c.id env.uuid ≡ false
    → (t : Sessions) × (refresh hash matches sign parse true env token s
        ≡ (ok (tokens_of hash matches sign parse true env c.user_id u.role), t))
      × (is_live env.uuid t.live ≡ true)
      × (is_live c.id t.live ≡ false)
      × (t.users ≡ s.users)
unfolding refresh parse_refresh rotated drop_id
live_token_is_exchanged hash matches sign parse env s token c u quiet given_one parsed kind named
      live known new other =
    let same : calm s ≡ s = ap (λ r. record s { replies = r }) (sym quiet) in
    let claims : parse_refresh hash matches sign parse true token ≡ ok c =
      ap (refresh_claims hash matches sign parse true) parsed ∙ rw kind refl in
    (
      rotated env c s,
      ap
            (λ b.
              if b
              then (err invalid, s)
              else rotate_parsed hash matches sign parse true env
                  (parse_refresh hash matches sign parse true token) s)
            given_one
          ∙ ap (λ r. rotate_parsed hash matches sign parse true env r s) claims
          ∙ ap (rotate hash matches sign parse true env c) (sym same)
          ∙ rotate-calm hash matches sign parse env s c u named live known new,
      is_live_self env.uuid (drop_id c.id s.live),
      is_live-new c.id env.uuid (drop_id c.id s.live) other (is_live-drop_id c.id s.live),
      refl,
    )
