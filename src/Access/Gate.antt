-- ===== src/Access/Gate.antt =====
-- What a request that passes the filters has shown.
use mathlib.Core.Path.{subst}
use go_commerce.Base.{
  ◌≡◌, ◌⊎◌, ◌↔◌, inl, inr, refl, true, false, Option, none, some, List, [], ◌∷◌, ◌++◌, arith,
  Bool-cases, ap, sym, ◌∙◌,
}
use go_commerce.Base.Text.{Text, codes, text_eq, text_eq_iff}
use go_commerce.Domain.Errors.{Result, ok, err}
use go_commerce.Auth.{
  Role, TokenType, untyped, access, refresh_type, other_type, Claims, Parsed, valid, expired, bad,
}
use go_commerce.Access.{
  Context, Outcome, next, abort, Filter, and_next, strip_prefix, contains, constant_time_equal,
  key_of, api_key, access_claims, RateResult, is_zero, with_rate, rate_limit, on_authentication,
  allows, require_known, require_role, parse_access_token, auth_as, auth_bearer, auth, guarded,
}

strip_prefix_iff : (p s t : Text) → (strip_prefix p s ≡ some t) ↔ (s ≡ p ++ t)
unfolding strip_prefix
strip_prefix_iff [] s t = (λ h. cc, λ h. cc)
strip_prefix_iff (c ∷ p) [] t = (λ h. cc, λ h. cc)
strip_prefix_iff (c ∷ p) (d ∷ s) t =
    (λ h. ground (arith, strip_prefix_iff p s t), λ h. ground (arith, strip_prefix_iff p s t))

pub strip_prefix-append : (p t : Text) → strip_prefix p (p ++ t) ≡ some t
strip_prefix-append p t = (strip_prefix_iff p (p ++ t) t).1 refl

-- The first filter of two passes a context, which the second passes.
abbrev Passed : Outcome → Filter → Context → Type 0
Passed o f d = (c : Context) × (o ≡ next c) × (f c ≡ next d)

and_next-Passed : (o : Outcome) (f : Filter) (d : Context) → and_next o f ≡ next d → Passed o f d
and_next-Passed (next c) f d h = (c, refl, h)
and_next-Passed (abort status code) f d h = absurd (cc)

-- The key is not checked, or it is the expected one.
abbrev pub HasKey : Text → Context → Type 0
HasKey expected c = (expected ≡ []) ⊎ (key_of c ≡ expected)

api_key-HasKey :
    (expected : Text) (c d : Context) → api_key expected c ≡ next d → HasKey expected c × (c ≡ d)
unfolding api_key constant_time_equal
api_key-HasKey [] c d h = (inl refl, cc)
api_key-HasKey (x ∷ xs) c d h = elim (Bool-cases (text_eq (key_of c) (x ∷ xs))) [
  | inl e ↦ (inr ((text_eq_iff _ _).0 e), ground arith)
  | inr e ↦ absurd (ground arith)
]

-- There is no limiter, or it allows the request, or it failed and the path is not one of those
-- that register, log in or refresh.
abbrev pub Allowed : Option (Option RateResult) → Context → Type 0
unfolding contains
Allowed none c = Unit
Allowed (some none) c = on_authentication c ≡ false
Allowed (some (some r)) c = is_zero r.allowed ≡ false

-- What the limiter adds to the context.
abbrev pub rated : Option (Option RateResult) → Context → Context
rated (some (some r)) c = with_rate r c
rated _ c = c

rate_limit-Allowed :
    (answer : Option (Option RateResult)) (c d : Context)
    → rate_limit answer c ≡ next d
    → Allowed answer c × (rated answer c ≡ d)
unfolding rate_limit contains
rate_limit-Allowed none c d h = (tt, cc)
rate_limit-Allowed (some none) c d h = elim (Bool-cases (on_authentication c)) [
  | inl e ↦ absurd (ground arith)
  | inr e ↦ (e, ground arith)
]
rate_limit-Allowed (some (some r)) c d h = elim (Bool-cases (is_zero r.allowed)) [
  | inl e ↦ absurd (ground arith)
  | inr e ↦ (e, ground arith)
]

-- `access`, or no type at all.
abbrev pub IsAccess : TokenType → Type 0
IsAccess t = (t ≡ access) ⊎ (t ≡ untyped)

access_claims-IsAccess :
    (p : Parsed) (c : Claims) → access_claims p ≡ ok c → (p ≡ valid c) × IsAccess c.token_type
access_claims-IsAccess (valid x) c h = of_type x.token_type refl
  where
    of_type : (t : TokenType) → x.token_type ≡ t → (valid x ≡ valid c) × IsAccess c.token_type
    of_type untyped e = ground arith
    of_type access e = ground arith
    of_type refresh_type e = absurd (ground arith)
    of_type other_type e = absurd (ground arith)
access_claims-IsAccess expired c h = absurd (cc)
access_claims-IsAccess bad c h = absurd (cc)

-- The context `d` is `c` with the user of the claims, whose role is one of `roles`.
pub record Admitted (parse : Text → Parsed) (expected : Text) (answer : Option (Option RateResult))
    (roles : List Role) (c d : Context) : Type 0 where
  pub key : HasKey expected c
  pub allowed : Allowed answer c
  pub token : Text
  pub claims : Claims
  pub header : c.authorization ≡ codes "Bearer " ++ token
  pub signed : parse token ≡ valid claims
  pub kind : IsAccess claims.token_type
  pub role : allows roles claims.role ≡ true
  pub context :
      d ≡ record (rated answer c) { user_id = some claims.user_id; user_role = some claims.role }

module _ (parse : Text → Parsed) where
  -- What `auth` has found.
  record Known (c d : Context) : Type 0 where
    token : Text
    claims : Claims
    header : c.authorization ≡ codes "Bearer " ++ token
    signed : parse token ≡ valid claims
    kind : IsAccess claims.token_type
    context : d ≡ record c { user_id = some claims.user_id; user_role = some claims.role }

  auth-Known : (c d : Context) → auth parse c ≡ next d → Known c d
  unfolding auth parse_access_token
  auth-Known c d h = of_header (strip_prefix (codes "Bearer ") c.authorization) refl h
    where
      of_claims :
          (token : Text) (r : Result Claims)
          → c.authorization ≡ codes "Bearer " ++ token
          → access_claims (parse token) ≡ r
          → auth_as parse r c ≡ next d
          → Known c d
      of_claims token (ok x) e q h = record {
        token = token;
        claims = x;
        header = e;
        signed = (access_claims-IsAccess (parse token) x q).0;
        kind = (access_claims-IsAccess (parse token) x q).1;
        context = cc;
      }
      of_claims token (err x) e q h = absurd (cc)

      of_header :
          (o : Option Text)
          → strip_prefix (codes "Bearer ") c.authorization ≡ o
          → auth_bearer parse o c ≡ next d
          → Known c d
      of_header none e h = absurd (cc)
      of_header (some token) e h =
          of_claims token (access_claims (parse token))
            ((strip_prefix_iff (codes "Bearer ") c.authorization token).0 e) refl h

  require_role-allows :
      (roles : List Role) (c d : Context)
      → require_role roles c ≡ next d
      → (r : Role) → c.user_role ≡ some r
      → (allows roles r ≡ true) × (c ≡ d)
  unfolding require_role
  require_role-allows roles c d h r e =
      known (Bool-cases (allows roles r)) (subst (λ o. require_known roles o c ≡ next d) e h)
    where
      known :
          (allows roles r ≡ true) ⊎ (allows roles r ≡ false)
          → require_known roles (some r) c ≡ next d
          → (allows roles r ≡ true) × (c ≡ d)
      known (inl q) h = (q, ground arith)
      known (inr q) h = absurd (ground arith)

  module _ (f : Filter) (c d : Context) where
    after_key :
        (expected : Text)
        → and_next (api_key expected c) f ≡ next d
        → HasKey expected c × (f c ≡ next d)
    after_key expected h =
        let p = and_next-Passed (api_key expected c) f d h in
        let k = api_key-HasKey expected c p.0 p.1 in (k.0, subst (λ x. f x ≡ next d) (sym k.1) p.2)

    after_rate :
        (answer : Option (Option RateResult))
        → and_next (rate_limit answer c) f ≡ next d
        → Allowed answer c × (f (rated answer c) ≡ next d)
    after_rate answer h =
        let p = and_next-Passed (rate_limit answer c) f d h in
        let k = rate_limit-Allowed answer c p.0 p.1 in
        (k.0, subst (λ x. f x ≡ next d) (sym k.1) p.2)

    after_auth : and_next (auth parse c) f ≡ next d → (e : Context) × Known c e × (f e ≡ next d)
    after_auth h = let p = and_next-Passed (auth parse c) f d h in (p.0, auth-Known c p.0 p.1, p.2)

  -- Nothing follows the check of the role.
  after_role :
      (c d : Context) (roles : List Role)
      → and_next (require_role roles c) (λ x. next x) ≡ next d
      → (r : Role) → c.user_role ≡ some r
      → (allows roles r ≡ true) × (c ≡ d)
  after_role c d roles h r e =
      let p = and_next-Passed (require_role roles c) (λ x. next x) d h in
      let k = require_role-allows roles c p.0 p.1 r e in (k.0, k.1 ∙ next_injective p.0 d p.2)
    where
      next_injective : (x y : Context) → next x ≡ next y → x ≡ y
      next_injective x y h = cc

rated-authorization :
    (answer : Option (Option RateResult)) (c : Context)
    → (rated answer c).authorization ≡ c.authorization
rated-authorization none c = refl
rated-authorization (some none) c = refl
rated-authorization (some (some r)) c = refl

-- A request that the filters of a guarded route let through has the key of the service, is within
-- the rate limit (or the limiter failed, off the paths of authentication), and carries a bearer
-- token that parses to the claims of an access token whose role is one of the route's; the handler
-- sees the user and the role of those claims and nothing else in the context but the rate headers
-- is changed.
pub guarded_admits :
    (parse : Text → Parsed) (expected : Text) (answer : Option (Option RateResult))
    (roles : List Role) (c d : Context)
    → guarded parse expected answer roles c ≡ next d
    → Admitted parse expected answer roles c d
unfolding guarded
guarded_admits parse expected answer roles c d h =
    let key = after_key parse _ c d expected h in
    let rate = after_rate parse _ c d answer key.1 in
    let found = after_auth parse _ (rated answer c) d rate.1 in
    let who = found.1 in
    let role =
      after_role parse found.0 d roles found.2 who.claims.role
        (ap (λ x. x.user_role) who.context) in
    record {
      key = key.0;
      allowed = rate.0;
      token = who.token;
      claims = who.claims;
      header = sym (rated-authorization answer c) ∙ who.header;
      signed = who.signed;
      kind = who.kind;
      role = role.0;
      context = sym role.1 ∙ who.context;
    }
