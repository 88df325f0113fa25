-- ===== src/Access/Outage.antt =====
-- The rate limit when its store is down.
use go_commerce.Base.{
  ◌≡◌, refl, Bool, true, false, ◌||◌, inl, inr, none, some, [], ◌∷◌, ◌++◌, is_some,
}
use go_commerce.Base.Text.{Text, text_eq_refl}
use go_commerce.Domain.Errors.{service_unavailable, error_code}
use go_commerce.Access.{
  Context, next, abort, strip_prefix, contains, constant_time_equal, api_key, authentication_path,
  on_authentication, rate_limit, api_group,
}
use go_commerce.Access.Gate.{HasKey, strip_prefix-append}

or_true : (x : Bool) → (x || true) ≡ true
or_true true = refl
or_true false = refl

contains-prefix : (p s : Text) → is_some (strip_prefix p s) ≡ true → contains s p ≡ true
unfolding contains
contains-prefix p [] h = h
contains-prefix p (x ∷ s) h = rw h refl

contains-append : (p a b : Text) → contains (a ++ (p ++ b)) p ≡ true
unfolding contains
contains-append p [] b = contains-prefix p (p ++ b) (rw (strip_prefix-append p b) refl)
contains-append p (x ∷ a) b = rw (contains-append p a b) (or_true _)

on_authentication_lem :
    (a b : Text) (c : Context)
    → c.path ≡ a ++ (authentication_path ++ b)
    → on_authentication c ≡ true
unfolding contains
on_authentication_lem a b c h =
    let found : contains c.path authentication_path ≡ true =
      rw h (contains-append authentication_path a b) in
    rw found (or_true (contains c.full_path authentication_path))

api_key-passes : (expected : Text) (c : Context) → HasKey expected c → api_key expected c ≡ next c
unfolding api_key constant_time_equal
api_key-passes [] c h = refl
api_key-passes (x ∷ xs) c (inl e) = absurd (cc)
api_key-passes (x ∷ xs) c (inr e) = rw (e, text_eq_refl (x ∷ xs)) refl

-- While the store of the rate limit fails, a request with the key of the service whose path
-- contains `/authentication/` is answered 503 by the filters of the API.
pub outage_closes_authentication :
    (expected a b : Text) (c : Context)
    → HasKey expected c
    → c.path ≡ a ++ (authentication_path ++ b)
    → api_group expected (some none) c ≡ abort 503 service_unavailable
unfolding api_group rate_limit contains error_code
outage_closes_authentication expected a b c k h =
    rw (api_key-passes expected c k, on_authentication_lem a b c h) refl
