-- ===== src/Base/Digits.antt =====
-- Numbers read from text (strconv).
use Prim.Native.Nat.{ℕ, ◌+◌, ◌-◌, ◌*◌, ◌^◌}
use mathlib.Core.Bool.{Bool, true, false, ◌&&◌, ◌||◌}
use mathlib.Core.List.{List, [], ◌∷◌}
use mathlib.Core.Option.{Option, none, some}
use go_commerce.Base.Tests.{◌==◌, leb, ltb, if◌then◌else◌}
use go_commerce.Base.Text.{Text, codes, text_eq}
use go_commerce.Base.Int.{ℤ, pos, neg}

-- The value of decimal digits, over the value of those read; none if another character stands there.
abbrev pub digits_value : Text → ℕ → Option ℕ
digits_value [] n = some n
digits_value (c ∷ cs) n =
    let rest = digits_value cs (n * 10 + (c - b'0')) in
    if leb b'0' c && leb c b'9' then rest else none

-- The value of at least one digit.
abbrev pub digits_of : Text → Option ℕ
digits_of [] = none
digits_of (c ∷ cs) = digits_value (c ∷ cs) 0

abbrev pub below_limit : ℕ → Option ℕ → Option ℕ
below_limit bound none = none
below_limit bound (some n) = if ltb n bound then some n else none

-- `strconv.ParseUint(raw, 10, 64)`
unfoldable pub parse_uint : Text → Option ℕ
parse_uint raw = below_limit (2 ^ 64) (digits_of raw)

abbrev pub negated : Option ℕ → Option ℤ
negated none = none
negated (some n) = some (neg n)

abbrev pub unsigned : Option ℕ → Option ℤ
unsigned none = none
unsigned (some n) = some (pos n)

-- `strconv.Atoi`
unfoldable pub atoi : Text → Option ℤ
atoi [] = none
atoi (c ∷ cs) =
    if c == b'-'
    then negated (below_limit (2 ^ 63 + 1) (digits_of cs))
    else unsigned (below_limit (2 ^ 63) (digits_of (if c == b'+' then cs else c ∷ cs)))

abbrev pub is_one_of : Text → List Text → Bool
unfolding text_eq
is_one_of s [] = false
is_one_of s (t ∷ ts) = text_eq s t || is_one_of s ts

-- `strconv.ParseBool`
unfoldable pub parse_bool : Text → Option Bool
unfolding text_eq
parse_bool s =
    if is_one_of s
      (codes "1" ∷ codes "t" ∷ codes "T" ∷ codes "true" ∷ codes "TRUE" ∷ codes "True" ∷ [])
    then some true
    else if is_one_of s
        (codes "0" ∷ codes "f" ∷ codes "F" ∷ codes "false" ∷ codes "FALSE" ∷ codes "False" ∷ [])
    then some false
    else none
