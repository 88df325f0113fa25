-- ===== src/Health.antt =====
-- internal/http/health: the readiness of the API, from what its pings of Postgres, Redis, MongoDB
-- and Typesense come to. The pings, which run in parallel, are not modelled.
use go_commerce.Base.{
  ℕ, ◌≡◌, ◌∙◌, ◌↔◌, refl, Bool, true, false, not, ◌&&◌, ◌||◌, List, [], ◌∷◌, ◌++◌, if◌then◌else◌,
  arith, Bool-cases, inl, inr, ap,
}
use go_commerce.Base.Text.{Text, codes}

-- What `ready` keeps of a checker: its name, whether its status is "ok", and whether it is critical.
pub record CheckResult : Type 0 where
  pub name : Text
  pub is_up : Bool
  pub critical : Bool

pub data Mode : Type 0 where
  up degraded unavailable : Mode

abbrev pub critical_down : List CheckResult → Bool
critical_down [] = false
critical_down (r ∷ rs) = (not r.is_up && r.critical) || critical_down rs

abbrev pub optional_down : List CheckResult → Bool
optional_down [] = false
optional_down (r ∷ rs) = (not r.is_up && not r.critical) || optional_down rs

-- `ready`
unfoldable pub ready : List CheckResult → Mode
ready rs = if critical_down rs then unavailable else if optional_down rs then degraded else up

abbrev pub status_of : Mode → ℕ
status_of unavailable = 503
status_of degraded = 200
status_of up = 200

-- A ping without a client: Typesense, which may be disabled, is then up.
abbrev pub search_up : Bool → Bool → Bool
search_up has_search ping = not has_search || ping

-- The checkers of the API, from what their pings come to.
unfoldable pub checkers : Bool → Bool → Bool → Bool → Bool → List CheckResult
checkers postgres redis mongo has_search typesense =
    record { name = codes "postgres"; is_up = postgres; critical = true }
    ∷ record { name = codes "redis"; is_up = redis; critical = true }
    ∷ record { name = codes "mongo"; is_up = mongo; critical = false }
    ∷ record { name = codes "typesense"; is_up = search_up has_search typesense; critical = false }
    ∷ []

-- A check in the list that is down, and whose being critical is `b`.
abbrev pub HasDown : Bool → List CheckResult → Type 0
HasDown b rs =
    (xs ys : List CheckResult) × (r : CheckResult) × (rs ≡ xs ++ r ∷ ys)
    × (r.is_up ≡ false)
    × (r.critical ≡ b)

critical_down-HasDown : (rs : List CheckResult) → critical_down rs ≡ true → HasDown true rs
critical_down-HasDown [] h = absurd (cc)
critical_down-HasDown (r ∷ rs) h = elim (Bool-cases (not r.is_up && r.critical)) [
  | inl e ↦ ([], rs, r, refl, ground arith, ground arith)
  | inr e ↦
      let k = critical_down-HasDown rs (ground arith) in
      (r ∷ k.0, k.1, k.2, ap (λ l. r ∷ l) k.3, k.4, k.5)
]

HasDown-critical_down :
    (xs ys : List CheckResult) (r : CheckResult)
    → r.is_up ≡ false
    → r.critical ≡ true
    → critical_down (xs ++ r ∷ ys) ≡ true
HasDown-critical_down [] ys r d c = ground arith
HasDown-critical_down (x ∷ xs) ys r d c =
    rw (HasDown-critical_down xs ys r d c) (or_true (not x.is_up && x.critical))
  where
    or_true : (b : Bool) → (b || true) ≡ true
    or_true true = refl
    or_true false = refl

abbrev pub AllUp : List CheckResult → Type 0
AllUp [] = Unit
AllUp (r ∷ rs) = (r.is_up ≡ true) × AllUp rs

AllUp-none :
    (rs : List CheckResult) → AllUp rs → (critical_down rs ≡ false) × (optional_down rs ≡ false)
AllUp-none [] h = (refl, refl)
AllUp-none (r ∷ rs) h = let k = AllUp-none rs h.1 in (rw (h.0, k.0) refl, rw (h.0, k.1) refl)

none-AllUp :
    (rs : List CheckResult) → critical_down rs ≡ false → optional_down rs ≡ false → AllUp rs
none-AllUp [] c o = tt
none-AllUp (r ∷ rs) c o = (ground arith, none-AllUp rs (ground arith) (ground arith))

-- The API answers 503 on its readiness probe exactly when a critical dependency is down, and says
-- that it is up exactly when every dependency is.
pub readiness_follows_checks :
    (rs : List CheckResult)
    → ((status_of (ready rs) ≡ 503) ↔ HasDown true rs) × ((ready rs ≡ up) ↔ AllUp rs)
unfolding ready
readiness_follows_checks rs = (
  (
    (λ h. critical_down-HasDown rs (ground arith)),
    (λ (xs, ys, r, e, d, c).
        let down : critical_down rs ≡ true =
          ap critical_down e ∙ HasDown-critical_down xs ys r d c in
        rw down refl),
  ),
  (
    (λ h. none-AllUp rs (ground arith) (ground arith)),
    (λ h. let k = AllUp-none rs h in rw (k.0, k.1) refl),
  ),
)
