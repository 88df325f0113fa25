-- ===== src/Access/Tokens.antt =====
-- The tokens that the service of authentication issues, as the filters and the rotation read them.
use mathlib.Core.Path.{subst}
use go_commerce.Base.{
  ℕ, ◌≡◌, refl, ◌∙◌, ap, sym, not, List, ◌∷◌, Bool, true, false, Option, none, some, [], ◌++◌,
  if◌then◌else◌, ◌||◌,
}
use go_commerce.Base.Text.{Text, codes, is_empty, trim_space, to_lower}
use go_commerce.Domain.Errors.{
  Result, ok, err, invalid, internal, unauthorized, auth_unauthorized, error_code,
}
use go_commerce.Store.Rows.{Env}
use go_commerce.Workers.Audit.{Reply, served, unsent, unheard, stopped, next_reply, heard, arrives}
use go_commerce.Workers.Dispatch.{is_ok}
use go_commerce.Auth.{
  Step, command, UserModel, find_by_email, login, login_as, and_then, Role, access, refresh_type,
  Claims, Parsed, valid, AuthTokens, Sessions, given, store_refresh_jti, parse_refresh, tokens_of,
  issue_tokens,
}
use go_commerce.Access.{Context, next, abort, parse_access_token, auth_bearer, auth}
use go_commerce.Access.Gate.{strip_prefix-append}

abbrev pub bearer : Text → Context → Context
bearer token c = record c { authorization = codes "Bearer " ++ token }

module _ (hash : Text → Option Text) (matches : Text → Text → Bool) (sign : Claims → Text)
    (parse : Text → Parsed) (has_cache : Bool) where
  -- How the two tokens are read: each where it belongs, and only there.
  pub record Separate (env : Env) (id : ℕ) (role : Role) (tokens : AuthTokens) : Type 0 where
    pub authenticates :
        (c : Context)
        → auth parse (bearer tokens.access_token c)
          ≡ next record (bearer tokens.access_token c) { user_id = some id; user_role = some role }
    pub not_a_bearer :
        (c : Context) → auth parse (bearer tokens.refresh_token c) ≡ abort 401 auth_unauthorized
    pub rotates :
        parse_refresh hash matches sign parse has_cache tokens.refresh_token
        ≡ ok record { user_id = id; role = role; token_type = refresh_type; id = env.uuid }
    pub not_rotated :
        parse_refresh hash matches sign parse has_cache tokens.access_token ≡ err unauthorized

  -- The live ids after the id of the refresh token was stored, which is skipped where Redis is not
  -- configured or the id is empty.
  abbrev pub with_stored : Env → List Text → List Text
  with_stored env ids = if not has_cache || is_empty env.uuid then ids else env.uuid ∷ ids

  store_refresh_jti-live :
      (env : Env) (s : Sessions)
      → is_ok (store_refresh_jti has_cache env.uuid s).0 ≡ true
      → (store_refresh_jti has_cache env.uuid s).1.live ≡ with_stored env s.live
  unfolding store_refresh_jti command
  store_refresh_jti-live env s h = by_case (not has_cache || is_empty env.uuid) h
    where
      by_reply :
          (reply : Reply)
          → is_ok (if◌then◌else◌ {A = Result (Unit {0})} (heard reply) (ok tt) (err internal))
            ≡ true
          → (if arrives reply then env.uuid ∷ s.live else s.live) ≡ env.uuid ∷ s.live
      by_reply served k = refl
      by_reply unheard k = refl
      by_reply unsent k = absurd (cc)
      by_reply stopped k = absurd (cc)

      stored : Bool → Step (Unit {0})
      stored b = if b then (λ t. (ok tt, t)) else command (λ ids. env.uuid ∷ ids)

      by_case :
          (b : Bool)
          → is_ok (stored b s).0 ≡ true
          → (stored b s).1.live ≡ (if b then s.live else env.uuid ∷ s.live)
      by_case true k = refl
      by_case false k = by_reply (next_reply s.replies) k

  module _ (signed : (c : Claims) → parse (sign c) ≡ valid c) (env : Env) where
    auth-bearer :
        (token : Text) (c : Context)
        → auth parse (bearer token c) ≡ auth_bearer parse (some token) (bearer token c)
    unfolding auth
    auth-bearer token c =
        ap (λ o. auth_bearer parse o (bearer token c)) (strip_prefix-append (codes "Bearer ") token)

    tokens_of-Separate :
        (id : ℕ) (role : Role)
        → Separate env id role (tokens_of hash matches sign parse has_cache env id role)
    unfolding parse_access_token parse_refresh error_code
    tokens_of-Separate id role =
        let of_access = signed record { user_id = id; role = role; token_type = access; id = [] } in
        let of_refresh =
          signed record { user_id = id; role = role; token_type = refresh_type; id = env.uuid } in
        record {
          authenticates = λ c. auth-bearer _ c ∙ rw of_access refl;
          not_a_bearer = λ c. auth-bearer _ c ∙ rw of_refresh refl;
          rotates = rw of_refresh refl;
          not_rotated = rw of_access refl;
        }

    issue_tokens-Separate :
        (id : ℕ) (role : Role) (s : Sessions) (tokens : AuthTokens)
        → (issue_tokens hash matches sign parse has_cache env id role s).0 ≡ ok tokens
        → Separate env id role tokens
          × ((issue_tokens hash matches sign parse has_cache env id role s).1.live
              ≡ with_stored env s.live)
    unfolding issue_tokens
    issue_tokens-Separate id role s tokens h =
        stored (store_refresh_jti has_cache env.uuid s) (store_refresh_jti-live env s) h
      where
        stored :
            (r : Result (Unit {0}) × Sessions)
            → (is_ok r.0 ≡ true → r.1.live ≡ with_stored env s.live)
            → (given r.0 r.1
                λ _ s. (ok (tokens_of hash matches sign parse has_cache env id role), s)).0
              ≡ ok tokens
            → Separate env id role tokens
              × ((given r.0 r.1
                    λ _ s. (ok (tokens_of hash matches sign parse has_cache env id role), s)).1.live
                  ≡ with_stored env s.live)
        stored (ok u, t) k h =
            (subst (Separate env id role) (cc) (tokens_of-Separate id role), k refl)
        stored (err e, t) k h = absurd (cc)

    -- Who the tokens of a login are for, and what it stores.
    abbrev pub LoggedIn : Text → Text → Sessions → Sessions → ℕ → AuthTokens → Type 0
    LoggedIn email password before after id tokens =
        (u : UserModel) × (find_by_email (to_lower (trim_space email)) before.users ≡ some (id, u))
        × (matches u.password_hash password ≡ true)
        × Separate env id u.role tokens
        × (after.live ≡ with_stored env before.live)

    -- The answer of a login as the user `i`.
    abbrev answer_as : ℕ → Role → Sessions → Result (ℕ × AuthTokens) × Sessions
    answer_as i role s =
        and_then {B = ℕ × AuthTokens} (issue_tokens hash matches sign parse has_cache env i role)
          (λ tokens t. (ok (i, tokens), t)) s

    answer_as-Separate :
        (i id : ℕ) (role : Role) (s : Sessions) (tokens : AuthTokens)
        → (answer_as i role s).0 ≡ ok (id, tokens)
        → (i ≡ id)
          × Separate env i role tokens
          × ((answer_as i role s).1.live ≡ with_stored env s.live)
    answer_as-Separate i id role s tokens h =
        issued (issue_tokens hash matches sign parse has_cache env i role s) refl h
      where
        issued :
            (r : Result AuthTokens × Sessions)
            → issue_tokens hash matches sign parse has_cache env i role s ≡ r
            → (given {B = ℕ × AuthTokens} r.0 r.1 (λ tokens t. (ok (i, tokens), t))).0
              ≡ ok (id, tokens)
            → (i ≡ id)
              × Separate env i role tokens
              × ((given {B = ℕ × AuthTokens} r.0 r.1 (λ tokens t. (ok (i, tokens), t))).1.live
                  ≡ with_stored env s.live)
        issued (ok x, t) q g =
            let e : x ≡ tokens = cc in
            let k = issue_tokens-Separate i role s x (ap (λ r. r.0) q) in
            (cc, subst (Separate env i role) e k.0, ap (λ r. r.1.live) (sym q) ∙ k.1)
        issued (err x, t) q g = absurd (cc)

    login_as-LoggedIn :
        (email password : Text) (s : Sessions) (o : Option (ℕ × UserModel)) (id : ℕ)
        (tokens : AuthTokens)
        → find_by_email (to_lower (trim_space email)) s.users ≡ o
        → (login_as hash matches sign parse has_cache env password o s).0 ≡ ok (id, tokens)
        → LoggedIn email password s
            (login_as hash matches sign parse has_cache env password o s).1
            id
            tokens
    login_as-LoggedIn email password s none id tokens e h = absurd (cc)
    login_as-LoggedIn email password s (some (i, u)) id tokens e h =
        checked (matches u.password_hash password) refl h
      where
        checked :
            (b : Bool)
            → matches u.password_hash password ≡ b
            → (if b then answer_as i u.role s else (err unauthorized, s)).0 ≡ ok (id, tokens)
            → LoggedIn email password s
                (if b then answer_as i u.role s else (err unauthorized, s)).1
                id
                tokens
        checked true m g =
            let k = answer_as-Separate i id u.role s tokens g in
            (
              u,
              e ∙ ap (λ j. some (j, u)) k.0,
              m,
              subst (λ j. Separate env j u.role tokens) k.0 k.1,
              k.2,
            )
        checked false m g = absurd (cc)

-- With a library of tokens that reads back what it signed, while the tokens are not expired: a
-- login that succeeds is of the user with the trimmed and lowered email, whose password matches,
-- and gives an access token that the filter of authentication accepts for that user and role and
-- the rotation refuses, and a refresh token that the rotation reads with the new id and the filter
-- refuses with 401. The login has added that id to the live ids (Redis being configured and the id
-- not empty; else they are as they were).
pub login_separates_tokens :
    (hash : Text → Option Text) (matches : Text → Text → Bool) (sign : Claims → Text)
    (parse : Text → Parsed) (has_cache : Bool) (signed : (c : Claims) → parse (sign c) ≡ valid c)
    (env : Env) (email password : Text) (s : Sessions) (id : ℕ) (tokens : AuthTokens)
    → (login hash matches sign parse has_cache env email password s).0 ≡ ok (id, tokens)
    → LoggedIn hash matches sign parse has_cache signed env email password s
        (login hash matches sign parse has_cache env email password s).1
        id
        tokens
unfolding login
login_separates_tokens hash matches sign parse has_cache signed env email password s id tokens h =
    given_fields (is_empty (to_lower (trim_space email)) || is_empty password) h
  where
    given_fields :
        (b : Bool)
        → (if b
            then (err invalid, s)
            else login_as hash matches sign parse has_cache env password
                (find_by_email (to_lower (trim_space email)) s.users)
                s).0
          ≡ ok (id, tokens)
        → LoggedIn hash matches sign parse has_cache signed env email password s
            (if b
              then (err invalid, s)
              else login_as hash matches sign parse has_cache env password
                  (find_by_email (to_lower (trim_space email)) s.users)
                  s).1
            id
            tokens
    given_fields true g = absurd (cc)
    given_fields false g =
        login_as-LoggedIn hash matches sign parse has_cache signed env email password s _ id tokens
          refl g
