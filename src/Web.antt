-- ===== src/Web.antt =====
-- pkg/response and what the handlers of internal/http share: a response, the user that the
-- middleware found, and the reading of parameters. Routing and JSON are not modelled: a body is
-- what its binding gives, or none.
use go_commerce.Base.{ℕ, Option, none, some}
use go_commerce.Domain.Errors.{Error, ErrorCode, Result, ok, err}

-- A failure may have no code.
pub data Response (A : Type 0) : Type 0 where
  success : ℕ → A → Response A
  failure : ℕ → Option ErrorCode → Response A

abbrev pub Handled : Type 0 → Type 0 → Type 0
Handled S A = S → Response A × S

module _ {S A : Type 0} where
  abbrev pub responds : ℕ → (Error → Response A) → Result A × S → Response A × S
  responds status f (ok a, s) = (success status a, s)
  responds status f (err e, s) = (f e, s)

  abbrev pub rejected : ℕ → Option ErrorCode → Handled S A
  rejected status code s = (failure status code, s)

  -- `middleware.UserID`
  abbrev pub as_user : Option ℕ → Option ErrorCode → (ℕ → Handled S A) → Handled S A
  as_user none code f = rejected 401 code
  as_user (some user) code f = f user

  -- What a parameter or a body reads as.
  abbrev pub with_param :
      {P : Type 0} → Option P → Option ErrorCode → (P → Handled S A) → Handled S A
  with_param none code f = rejected 400 code
  with_param (some p) code f = f p
