-- ===== src/Auth/Rotation.antt =====
-- internal/http/auth/service.go: what the rotation does to the live ids of refresh tokens, request
-- after request; Race is about requests that overlap.
use go_commerce.Base.{
  ℕ, ◌≡◌, refl, Bool, true, false, Option, none, some, List, [], ◌∷◌, if◌then◌else◌, Bool-cases,
  inl, inr,
}
use go_commerce.Base.Text.{Text, text_eq, is_empty}
use go_commerce.Domain.Errors.{Result, ok, err, internal}
use go_commerce.Store.Rows.{Env}
use go_commerce.Workers.Audit.{
  Reply, served, unsent, unheard, stopped, next_reply, other_replies, heard, arrives,
}
use go_commerce.Workers.Dispatch.{is_ok}
use go_commerce.Auth.{
  UserModel, Claims, Parsed, valid, Sessions, Step, given, command, is_live, drop_id,
  store_refresh_jti, delete_found, consume_refresh_jti, is_refresh, parse_refresh, issue_tokens,
  issue_to, rotate, refresh,
}

abbrev pub Spent : Text → Sessions → Type 0
Spent id s = is_live id s.live ≡ false

-- If it is a success, the token with the id is spent.
abbrev pub SpentIfOk : {A : Type 0} → Text → Result A × Sessions → Type 0
SpentIfOk id r = is_ok r.0 ≡ true → Spent id r.1

pub is_live-drop_id : (id : Text) (ids : List Text) → is_live id (drop_id id ids) ≡ false
unfolding is_live drop_id
is_live-drop_id id [] = refl
is_live-drop_id id (x ∷ ids) = elim (Bool-cases (text_eq id x)) [
  | inl e ↦ rw e (is_live-drop_id id ids)
  | inr e ↦ rw (e, e) (is_live-drop_id id ids)
]

module _ {A B : Type 0} (id : Text) where
  given-fails :
      (r : Result A) (s : Sessions) (f : A → Step B)
      → is_ok r ≡ false
      → is_ok (given r s f).0 ≡ false
  given-fails (ok a) s f h = absurd (cc)
  given-fails (err e) s f h = refl

  given-Spent :
      (r : Result A) (s : Sessions) (f : A → Step B)
      → (is_ok r ≡ true → Spent id s)
      → ((a : A) → Spent id s → SpentIfOk id (f a s))
      → SpentIfOk id (given r s f)
  given-Spent (ok a) s f h k = k a (h refl)
  given-Spent (err e) s f h k = λ x. absurd (cc)

command-drop : (id : Text) (s : Sessions) → SpentIfOk id (command (drop_id id) s)
unfolding command
command-drop id s = go (next_reply s.replies)
  where
    go :
        (r : Reply)
        → is_ok {A = Unit {0}} (if heard r then ok tt else err internal) ≡ true
        → is_live id (if arrives r then drop_id id s.live else s.live) ≡ false
    go served h = is_live-drop_id id s.live
    go unsent h = absurd (cc)
    go unheard h = absurd (cc)
    go stopped h = absurd (cc)

delete_found-Spent : (id : Text) (b : Bool) (s : Sessions) → SpentIfOk id (delete_found id b s)
delete_found-Spent id false s h = absurd (cc)
delete_found-Spent id true s h = command-drop id s h

consume-Spent : (id : Text) (s : Sessions) → SpentIfOk id (consume_refresh_jti true id s)
unfolding consume_refresh_jti
consume-Spent id s = elim (Bool-cases (is_empty id)) [
  | inl e ↦ rw e (λ h. absurd (cc))
  | inr e ↦ rw e (go (heard (next_reply s.replies)))
]
  where
    go :
        (b : Bool)
        → SpentIfOk id (
            given
              (if b then ok (is_live id s.live) else err internal)
              (record s { replies = other_replies s.replies })
              (delete_found id))
    go true =
        delete_found-Spent id (is_live id s.live) (record s { replies = other_replies s.replies })
    go false = λ h. absurd (cc)

consume-fails :
    (id : Text) (s : Sessions) → Spent id s → is_ok (consume_refresh_jti true id s).0 ≡ false
unfolding consume_refresh_jti
consume-fails id s h = elim (Bool-cases (is_empty id)) [
  | inl e ↦ rw e refl
  | inr e ↦ rw e (go (heard (next_reply s.replies)))
]
  where
    go :
        (b : Bool)
        → is_ok
            (given
              (if b then ok (is_live id s.live) else err internal)
              (record s { replies = other_replies s.replies })
              (delete_found id)).0
          ≡ false
    go true = rw h refl
    go false = refl

store-Spent :
    (id fresh : Text) (s : Sessions)
    → text_eq id fresh ≡ false
    → Spent id s
    → Spent id (store_refresh_jti true fresh s).1
unfolding store_refresh_jti command is_live
store-Spent id fresh s n h = elim (Bool-cases (is_empty fresh)) [
  | inl e ↦ rw e h
  | inr e ↦ rw e (elim (Bool-cases (arrives (next_reply s.replies))) [
    | inl a ↦ rw a (rw n h)
    | inr a ↦ rw a h
  ])
]

module _ (hash : Text → Option Text) (matches : Text → Text → Bool) (sign : Claims → Text)
    (parse : Text → Parsed) where
  issue_to-Spent :
      (env : Env) (id : Text) (user : ℕ) (u : Option UserModel) (s : Sessions)
      → text_eq id env.uuid ≡ false
      → Spent id s
      → SpentIfOk id (issue_to hash matches sign parse true env user u s)
  unfolding issue_tokens
  issue_to-Spent env id user none s n h = λ x. absurd (cc)
  issue_to-Spent env id user (some u) s n h =
      given-Spent id (store_refresh_jti true env.uuid s).0 _ _ (λ _. store-Spent id env.uuid s n h)
        (λ _ k _. k)

  rotate-Spent :
      (env : Env) (c : Claims) (s : Sessions)
      → text_eq c.id env.uuid ≡ false
      → SpentIfOk c.id (rotate hash matches sign parse true env c s)
  rotate-Spent env c s n =
      given-Spent c.id (consume_refresh_jti true c.id s).0 _ _ (consume-Spent c.id s)
        (λ _ k. issue_to-Spent env c.id c.user_id _ _ n k)

  rotate-fails :
      (env : Env) (c : Claims) (s : Sessions)
      → Spent c.id s
      → is_ok (rotate hash matches sign parse true env c s).0 ≡ false
  rotate-fails env c s h =
      given-fails c.id (consume_refresh_jti true c.id s).0 _ _ (consume-fails c.id s h)

  refresh-Spent :
      (env : Env) (token : Text) (c : Claims) (s : Sessions)
      → parse token ≡ valid c
      → text_eq c.id env.uuid ≡ false
      → SpentIfOk c.id (refresh hash matches sign parse true env token s)
  unfolding refresh parse_refresh
  refresh-Spent env token c s p n = elim (Bool-cases (is_empty token)) [
    | inl e ↦ rw e (λ h. absurd (cc))
    | inr e ↦
        rw (e, p)
          (elim (Bool-cases (is_refresh c.token_type)) [
            | inl t ↦ rw t (rotate-Spent env c s n)
            | inr t ↦ rw t (λ h. absurd (cc))
          ])
  ]

  refresh-fails :
      (env : Env) (token : Text) (c : Claims) (s : Sessions)
      → parse token ≡ valid c
      → Spent c.id s
      → is_ok (refresh hash matches sign parse true env token s).0 ≡ false
  unfolding refresh parse_refresh
  refresh-fails env token c s p h = elim (Bool-cases (is_empty token)) [
    | inl e ↦ rw e refl
    | inr e ↦
        rw (e, p)
          (elim (Bool-cases (is_refresh c.token_type)) [
            | inl t ↦ rw t (rotate-fails env c s h)
            | inr t ↦ rw t refl
          ])
  ]

  -- With Redis in place, a refresh token that was exchanged for new tokens is not exchanged again:
  -- the next request with it fails, whatever Redis answers then, if the id drawn for the new token
  -- differs from its own.
  pub refresh_is_single_use :
      (env later : Env) (token : Text) (c : Claims) (s : Sessions)
      → parse token ≡ valid c
      → text_eq c.id env.uuid ≡ false
      → is_ok (refresh hash matches sign parse true env token s).0 ≡ true
      → is_ok
          (refresh hash matches sign parse true later token
            (refresh hash matches sign parse true env token s).1).0
        ≡ false
  refresh_is_single_use env later token c s p n h =
      refresh-fails later token c _ p (refresh-Spent env token c s p n h)
