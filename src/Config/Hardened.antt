-- ===== src/Config/Hardened.antt =====
-- What production refuses to start with.
use mathlib.Core.Path.{subst}
use go_commerce.Base.{
  ℕ, ◌≤◌, ◌≡◌, ◌≢◌, refl, sym, ◌∙◌, ◌⊎◌, inl, inr, Bool, true, false, ◌||◌, Option, none, some,
  List, [], ◌∷◌, arith, ltb, if◌then◌else◌, length, Bool-cases,
}
use go_commerce.Base.Int.{ℤ, pos, negsuc, ltb_ℤ, leb_ℤ}
use go_commerce.Base.Text.{Text, codes, text_eq, text_eq_refl, is_empty, trim_space}
use go_commerce.Base.Digits.{is_one_of}
use go_commerce.Config.{
  Config, Environment, env_text, env_list, is_production, default_secret, bad_api_key, bad_secret,
  has_wildcard, harden, read_config, checked, load,
}

-- The text is none of the texts.
abbrev pub NotIn : Text → List Text → Type 0
NotIn s [] = Unit
NotIn s (t ∷ ts) = (t ≢ s) × NotIn s ts

pub record Hardened (c : Config) : Type 0 where
  pub api_key : NotIn c.api_key ([] ∷ codes "dev-api-key" ∷ codes "change-me" ∷ [])
  pub secret_length : 16 ≤ length c.jwt_secret
  pub secret : c.jwt_secret ≢ default_secret
  pub origins : NotIn (codes "*") c.cors_origins
  pub cost : leb_ℤ (pos 12) c.bcrypt_cost ≡ true

or_false : (a b : Bool) → (a || b) ≡ false → (a ≡ false) × (b ≡ false)
or_false true b h = absurd (cc)
or_false false b h = (refl, h)

different : (s t : Text) → text_eq s t ≡ false → s ≢ t
different s t h = λ e. clash (subst (λ x. text_eq s x ≡ true) e (text_eq_refl s))
  where
    clash : text_eq s t ≡ true → ⊥
    clash k = cc

is_one_of-NotIn : (s : Text) (ts : List Text) → is_one_of s ts ≡ false → NotIn s ts
unfolding text_eq
is_one_of-NotIn s [] h = tt
is_one_of-NotIn s (t ∷ ts) h =
    let k = or_false (text_eq s t) (is_one_of s ts) h in
    ((λ e. different s t k.0 (sym e)), is_one_of-NotIn s ts k.1)

has_wildcard-NotIn : (os : List Text) → has_wildcard os ≡ false → NotIn (codes "*") os
unfolding text_eq
has_wildcard-NotIn [] h = tt
has_wildcard-NotIn (o ∷ os) h =
    let k = or_false (text_eq o (codes "*")) (has_wildcard os) h in
    (different o (codes "*") k.0, has_wildcard-NotIn os k.1)

nonempty_lem : (s : Text) → is_empty s ≡ false → [] ≢ s
nonempty_lem [] h = absurd (cc)
nonempty_lem (x ∷ s) h = λ e. cc

abbrev floor_cost : Config → Config
floor_cost c = if ltb_ℤ c.bcrypt_cost (pos 12) then record c { bcrypt_cost = pos 12 } else c

record Checks (c : Config) : Type 0 where
  api_key : NotIn c.api_key ([] ∷ codes "dev-api-key" ∷ codes "change-me" ∷ [])
  secret_length : 16 ≤ length c.jwt_secret
  secret : c.jwt_secret ≢ default_secret
  origins : NotIn (codes "*") c.cors_origins

checks :
    (c : Config)
    → bad_api_key c ≡ false
    → bad_secret c ≡ false
    → has_wildcard c.cors_origins ≡ false
    → Checks c
unfolding bad_api_key bad_secret
checks c key secret origins =
    let k =
      or_false (is_empty c.api_key)
        (is_one_of c.api_key (codes "dev-api-key" ∷ codes "change-me" ∷ [])) key in
    let l = or_false (ltb (length c.jwt_secret) 16) (text_eq c.jwt_secret default_secret) secret in
    record {
      api_key = (
        nonempty_lem c.api_key k.0,
        is_one_of-NotIn c.api_key (codes "dev-api-key" ∷ codes "change-me" ∷ []) k.1,
      );
      secret_length = at_least (length c.jwt_secret) l.0;
      secret = different c.jwt_secret default_secret l.1;
      origins = has_wildcard-NotIn c.cors_origins origins;
    }
  where
    at_least : (n : ℕ) → ltb n 16 ≡ false → 16 ≤ n
    at_least n h = ground arith

floor_cost-Hardened : (c : Config) → Checks c → Hardened (floor_cost c)
floor_cost-Hardened c k = elim (Bool-cases (ltb_ℤ c.bcrypt_cost (pos 12))) [
  | inl e ↦ rw e (
      hardened (record c { bcrypt_cost = pos 12 })
        (record {
          api_key = k.api_key;
          secret_length = k.secret_length;
          secret = k.secret;
          origins = k.origins;
        })
        refl)
  | inr e ↦ rw e (hardened c k (not_below c.bcrypt_cost e))
]
  where
    hardened : (d : Config) → Checks d → leb_ℤ (pos 12) d.bcrypt_cost ≡ true → Hardened d
    hardened d j h = record {
      api_key = j.api_key;
      secret_length = j.secret_length;
      secret = j.secret;
      origins = j.origins;
      cost = h;
    }

    not_below : (n : ℤ) → ltb_ℤ n (pos 12) ≡ false → leb_ℤ (pos 12) n ≡ true
    not_below (pos n) h = ground arith
    not_below (negsuc n) h = ground arith

harden-Hardened : (c d : Config) → harden c ≡ some d → Hardened d
unfolding harden bad_api_key bad_secret
harden-Hardened c d h =
    settled (bad_api_key c || bad_secret c || has_wildcard c.cors_origins) refl h
  where
    settled :
        (b : Bool)
        → (bad_api_key c || bad_secret c || has_wildcard c.cors_origins) ≡ b
        → (if b then none else some (floor_cost c)) ≡ some d
        → Hardened d
    settled true e g = absurd (cc)
    settled false e g =
        let left = or_false (bad_api_key c || bad_secret c) (has_wildcard c.cors_origins) e in
        let both = or_false (bad_api_key c) (bad_secret c) left.0 in
        subst Hardened (cc) (floor_cost-Hardened c (checks c both.0 both.1 left.1))

bad_secret-default : (c : Config) → c.jwt_secret ≡ default_secret → bad_secret c ≡ true
unfolding text_eq
bad_secret-default c h = rw h refl

has_wildcard-any : (os : List Text) → os ≡ codes "*" ∷ [] → has_wildcard os ≡ true
unfolding text_eq
has_wildcard-any os h = rw h refl

harden-default_key : (c : Config) → c.api_key ≡ codes "dev-api-key" → harden c ≡ none
unfolding harden text_eq
harden-default_key c h = rw h refl

harden-default_secret : (c : Config) → c.jwt_secret ≡ default_secret → harden c ≡ none
unfolding harden
harden-default_secret c h =
    let bad : bad_secret c ≡ true = bad_secret-default c h in rw bad (refused (bad_api_key c))
  where
    refused :
        (a : Bool)
        → (if (a || true) || has_wildcard c.cors_origins then none else some (floor_cost c)) ≡ none
    refused true = refl
    refused false = refl

harden-wildcard : (c : Config) → c.cors_origins ≡ codes "*" ∷ [] → harden c ≡ none
unfolding harden text_eq
harden-wildcard c h =
    let bad : has_wildcard c.cors_origins ≡ true = has_wildcard-any c.cors_origins h in
    rw bad (refused (bad_api_key c || bad_secret c))
  where
    refused : (a : Bool) → (if a || true then none else some (floor_cost c)) ≡ none
    refused true = refl
    refused false = refl

env_list-unset :
    (e : Environment) (key : Text) → e key ≡ [] → env_list e key (codes "*") ≡ codes "*" ∷ []
unfolding env_list trim_space
env_list-unset e key h = rw h refl

module _ (parse_duration : Text → Option ℤ) (is_valid : Config → Bool) where
  checked-production :
      (c d : Config)
      → is_production c ≡ true
      → checked parse_duration is_valid c ≡ some d
      → harden c ≡ some d
  unfolding checked
  checked-production c d p h = valid (is_valid c) h
    where
      valid :
          (b : Bool)
          → (if b then (if is_production c then harden c else some c) else none) ≡ some d
          → harden c ≡ some d
      valid true g = subst (λ b. (if b then harden c else some c) ≡ some d) p g
      valid false g = absurd (cc)

  read_config-production :
      (e : Environment)
      → e (codes "APP_ENV") ≡ codes "production"
      → is_production (read_config parse_duration is_valid e) ≡ true
  unfolding read_config is_production env_text
  read_config-production e h = rw h (text_eq_refl (codes "production"))

  -- A default that production refuses.
  read_config-refused :
      (e : Environment)
      → (e (codes "API_KEY") ≡ []) ⊎ (e (codes "JWT_SECRET") ≡ []) ⊎ (e (codes "CORS_ORIGINS") ≡ [])
      → harden (read_config parse_duration is_valid e) ≡ none
  unfolding read_config env_text
  read_config-refused e (inl h) =
      harden-default_key (read_config parse_duration is_valid e) (rw h refl)
  read_config-refused e (inr (inl h)) =
      harden-default_secret (read_config parse_duration is_valid e) (rw h refl)
  read_config-refused e (inr (inr h)) =
      harden-wildcard (read_config parse_duration is_valid e) (any_origin h)
    where
      any_origin :
          e (codes "CORS_ORIGINS") ≡ []
          → env_list e (codes "CORS_ORIGINS") (codes "*") ≡ codes "*" ∷ []
      any_origin h = env_list-unset e (codes "CORS_ORIGINS") h

-- In production, a configuration with which the process starts has an API key that is set and is
-- neither `dev-api-key` nor `change-me`, a token secret of at least 16 bytes that is not the default
-- one, no origin `*`, and a bcrypt cost of at least 12, whatever the environment sets and whatever
-- the check of the tags accepts.
pub production_hardens :
    (parse_duration : Text → Option ℤ) (is_valid : Config → Bool) (e : Environment) (c : Config)
    → e (codes "APP_ENV") ≡ codes "production"
    → load parse_duration is_valid e ≡ some c
    → Hardened c
unfolding load
production_hardens parse_duration is_valid e c p h =
    harden-Hardened (read_config parse_duration is_valid e) c (
      checked-production parse_duration is_valid (read_config parse_duration is_valid e) c
        (read_config-production parse_duration is_valid e p) h)

-- In production, the process does not start when the API key, the token secret or the list of
-- origins is unset: each has a default that production refuses.
pub production_needs_secrets :
    (parse_duration : Text → Option ℤ) (is_valid : Config → Bool) (e : Environment)
    → e (codes "APP_ENV") ≡ codes "production"
    → (e (codes "API_KEY") ≡ []) ⊎ (e (codes "JWT_SECRET") ≡ []) ⊎ (e (codes "CORS_ORIGINS") ≡ [])
    → load parse_duration is_valid e ≡ none
unfolding load
production_needs_secrets parse_duration is_valid e p unset =
    started (load parse_duration is_valid e) refl
  where
    refused : (c : Config) → load parse_duration is_valid e ≡ some c → ⊥
    refused c h =
        let kept =
          checked-production parse_duration is_valid (read_config parse_duration is_valid e) c
            (read_config-production parse_duration is_valid e p) h in
        let gone = read_config-refused parse_duration is_valid e unset in clash (sym gone ∙ kept)
      where
        clash : none ≡ some c → ⊥
        clash k = cc

    started : (o : Option Config) → load parse_duration is_valid e ≡ o → o ≡ none
    started none h = refl
    started (some c) h = absurd (refused c h)
