-- ===== src/Search/Values.antt =====
-- The values of a document of the search engine, and how the client reads them.
use go_commerce.Base.{
  ℕ, zero, suc, ◌+◌, ◌-◌, ◌/◌, ◌%◌, ◌^◌, Option, none, some, [], ◌∷◌, ◌==◌, ltb, if◌then◌else◌,
}
use go_commerce.Base.Text.{Text}
use go_commerce.Base.Digits.{digits_of}

-- A JSON value of a document: a text, a number, or what `fmt.Sprint` prints of any other.
pub data Value : Type 0 where
  string : Text → Value
  number : ℕ → Value
  other : Text → Value

-- The decimal digits of a number below 10 ^ fuel.
abbrev pub digits : ℕ → ℕ → Text → Text
digits zero n out = out
digits (suc fuel) n out =
    let rest = digits fuel (n / 10) ((b'0' + n % 10) ∷ out) in
    if ltb n 10 then (b'0' + n) ∷ out else rest

-- `strconv.Itoa`, of a number below 2 ^ 63.
unfoldable pub itoa : ℕ → Text
itoa n = digits 19 n []

unfoldable pub as_string : Value → Text
unfolding itoa
as_string (string t) = t
as_string (number n) = itoa n
as_string (other t) = t

abbrev pub max_int : ℕ
max_int = 2 ^ 63 - 1

abbrev pub up_to : ℕ → Option ℕ → ℕ
up_to bound none = 0
up_to bound (some n) = if ltb bound n then bound else n

-- `uint` of a negative number.
abbrev pub wrapped : ℕ → ℕ
wrapped n = (2 ^ 64 - n) % 2 ^ 64

-- `n, _ := strconv.Atoi(t)`, then `uint(n)`: a number out of range is the nearest one in range.
abbrev pub atoi_uint : Text → ℕ
atoi_uint [] = 0
atoi_uint (c ∷ cs) =
    if c == b'-'
    then wrapped (up_to (2 ^ 63) (digits_of cs))
    else up_to max_int (digits_of (if c == b'+' then cs else c ∷ cs))

unfoldable pub as_uint : Value → ℕ
as_uint (number n) = n
as_uint (string t) = atoi_uint t
as_uint (other t) = 0

-- `strconv.ParseFloat`, where a price is a text, is a parameter: floating point is not modelled.
unfoldable pub as_float : (Text → ℕ) → Value → ℕ
as_float parse_float (number n) = n
as_float parse_float (string t) = parse_float t
as_float parse_float (other t) = 0
