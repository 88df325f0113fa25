-- ===== src/Auth/Race.antt =====
-- Two requests with one refresh token, each between the check and the removal of its id.
use go_commerce.Base.{◌≡◌, refl, ap, ◌∙◌, Bool, true, false, Option, some, ◌∷◌}
use go_commerce.Base.Text.{Text, is_empty}
use go_commerce.Domain.Errors.{Result, ok, err}
use go_commerce.Store.Table.{lookup}
use go_commerce.Store.Rows.{Env}
use go_commerce.Auth.{
  UserModel, Claims, Parsed, AuthTokens, Sessions, Step, given, and_then, command, is_live, drop_id,
  exists_key, delete_found, tokens_of, issue_tokens, issue_to, rotate, consume_refresh_jti,
}
use go_commerce.Auth.Renewal.{calm, issue-calm}

given-given :
    {A B C : Type 0} (r : Result A) (s : Sessions) (f : A → Step B) (g : B → Step C)
    → given (given r s f).0 (given r s f).1 g ≡ given r s (λ a t. given (f a t).0 (f a t).1 g)
given-given (ok a) s f g = refl
given-given (err e) s f g = refl

-- What is left of a request after its check of the id: the removal, and the new tokens.
module _ (hash : Text → Option Text) (matches : Text → Text → Bool) (sign : Claims → Text)
    (parse : Text → Parsed) where
  unfoldable pub after_check : Env → Claims → Bool → Step AuthTokens
  unfolding command drop_id issue_tokens
  after_check env c found =
      and_then (delete_found c.id found)
        λ _ s. issue_to hash matches sign parse true env c.user_id (lookup c.user_id s.users) s

  -- The check and the rest, run without a pause, are the rotation.
  rotate-after_check :
      (env : Env) (c : Claims) (s : Sessions)
      → is_empty c.id ≡ false
      → rotate hash matches sign parse true env c s
        ≡ and_then (exists_key c.id) (after_check env c) s
  unfolding consume_refresh_jti after_check
  rotate-after_check env c s named = rw named (
      given-given (exists_key c.id s).0 (exists_key c.id s).1 (delete_found c.id)
        λ _ t. issue_to hash matches sign parse true env c.user_id (lookup c.user_id t.users) t)

  after_check-calm :
      (env : Env) (c : Claims) (u : UserModel) (s : Sessions)
      → is_empty env.uuid ≡ false
      → lookup c.user_id s.users ≡ some u
      → after_check env c true (calm s) ≡ (
        ok (tokens_of hash matches sign parse true env c.user_id u.role),
        calm (record s { live = env.uuid ∷ drop_id c.id s.live }),
      )
  unfolding after_check command drop_id
  after_check-calm env c u s new known =
      ap
        (λ o.
          issue_to hash matches sign parse true env c.user_id o
            (calm (record s { live = drop_id c.id s.live })))
        known
      ∙ issue-calm hash matches sign parse env s (record s { live = drop_id c.id s.live }) c.user_id
          u new

-- Where no command of Redis fails: of two requests with one live refresh token, each of which checks
-- the id before the other removes it, both checks succeed and both requests are answered with new
-- tokens, although the rotation that runs without a pause is the check followed by the rest.
pub race_spends_token_twice :
    (hash : Text → Option Text) (matches : Text → Text → Bool) (sign : Claims → Text)
    (parse : Text → Parsed) (one two : Env) (c : Claims) (u : UserModel) (s : Sessions)
    → is_empty c.id ≡ false
    → is_live c.id s.live ≡ true
    → lookup c.user_id s.users ≡ some u
    → is_empty one.uuid ≡ false
    → is_empty two.uuid ≡ false
    → (t : Sessions) × (v : Sessions) × (exists_key c.id (calm s) ≡ (ok true, calm s))
      × (exists_key c.id (exists_key c.id (calm s)).1 ≡ (ok true, calm s))
      × (after_check hash matches sign parse one c true (calm s)
          ≡ (ok (tokens_of hash matches sign parse true one c.user_id u.role), t))
      × (after_check hash matches sign parse two c true t
          ≡ (ok (tokens_of hash matches sign parse true two c.user_id u.role), v))
      × (rotate hash matches sign parse true one c (calm s)
          ≡ and_then (exists_key c.id) (after_check hash matches sign parse one c) (calm s))
race_spends_token_twice hash matches sign parse one two c u s named live known new_one new_two =
    let t = record s { live = one.uuid ∷ drop_id c.id s.live } in
    (
      calm t,
      calm (record t { live = two.uuid ∷ drop_id c.id t.live }),
      rw live refl,
      rw live refl,
      after_check-calm hash matches sign parse one c u s new_one known,
      after_check-calm hash matches sign parse two c u t new_two known,
      rotate-after_check hash matches sign parse one c (calm s) named,
    )
