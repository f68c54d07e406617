-- ===== src/Common/Decimal.antt =====
-- Go's `strconv.ParseInt` with base 10 and 32 bits, and `strconv.FormatInt`.
use Prim.Native.Char.{code}
use Prim.Native.Nat.{ℕ, zero, suc, ◌+◌, ◌-◌, ◌*◌, ◌≤◌}
use Prim.Native.String.{String}
use mathlib.Core.Path.{◌≡◌, refl}
use mathlib.Core.Bool.{◌&&◌}
use mathlib.Core.Logic.{inl, inr}
use mathlib.Core.Option.{Option, none, some}
use native.Mathlib.Omega.{arith}
use datakit_operator.Common.Tests.{if◌then◌else◌, leb, eqb, Bool-cases}
use datakit_operator.Common.Text.{◌⁀◌}
use datakit_operator.Common.FilePath.{itoa}
use datakit_operator.Common.Int.{ℤ, pos, negsuc}

-- The digits of a number, after those that make `n`.
digits_after : ℕ → String → Option ℕ
digits_after n String.[] = some n
digits_after n (String.◌∷◌ c s) =
    let rest = digits_after (n * 10 + (code c - 48)) s in
    if leb 48 (code c) && leb (code c) 57 then rest else none

parse_digits : String → Option ℕ
unfolding digits_after
parse_digits String.[] = none
parse_digits (String.◌∷◌ c s) = digits_after 0 (String.◌∷◌ c s)

positive_32 : Option ℕ → Option ℤ
positive_32 none = none
positive_32 (some n) = if leb n 2147483647 then some (pos n) else none

abbrev minus : ℕ → ℤ
minus zero = pos 0
minus (suc n) = negsuc n

negative_32 : Option ℕ → Option ℤ
negative_32 none = none
negative_32 (some n) = if leb n 2147483648 then some (minus n) else none

-- A sign may stand in front; `none` is the error of the syntax or of the range.
unfoldable pub parse_int32 : String → Option ℤ
unfolding positive_32 negative_32 parse_digits
parse_int32 String.[] = none
parse_int32 (String.◌∷◌ c s) =
    if eqb (code c) 43
    then positive_32 (parse_digits s)
    else if eqb (code c) 45
    then negative_32 (parse_digits s)
    else positive_32 (parse_digits (String.◌∷◌ c s))

unfoldable pub format_int : ℤ → String
unfolding itoa
format_int (pos n) = itoa n
format_int (negsuc n) = "-" ⁀ itoa (suc n)

-- The values of an int32.
abbrev pub IsInt32 : ℤ → Type 0
IsInt32 (pos n) = n ≤ 2147483647
IsInt32 (negsuc n) = n ≤ 2147483647

abbrev IsInt32Result : Option ℤ → Type 0
IsInt32Result none = Unit
IsInt32Result (some z) = IsInt32 z

positive_32-IsInt32 : (o : Option ℕ) → IsInt32Result (positive_32 o)
unfolding positive_32
positive_32-IsInt32 none = tt
positive_32-IsInt32 (some n) = elim (Bool-cases (leb n 2147483647)) [
  | inl small ↦ rw small (ground arith)
  | inr big ↦ rw big tt
]

negative_32-IsInt32 : (o : Option ℕ) → IsInt32Result (negative_32 o)
unfolding negative_32
negative_32-IsInt32 none = tt
negative_32-IsInt32 (some zero) = omega arith
negative_32-IsInt32 (some (suc n)) = elim (Bool-cases (leb (suc n) 2147483648)) [
  | inl small ↦ rw small (ground arith)
  | inr big ↦ rw big tt
]

parse_int32-IsInt32Result : (s : String) → IsInt32Result (parse_int32 s)
unfolding parse_int32
parse_int32-IsInt32Result String.[] = tt
parse_int32-IsInt32Result (String.◌∷◌ c s) = elim (Bool-cases (eqb (code c) 43)) [
  | inl plus ↦ rw plus (positive_32-IsInt32 (parse_digits s))
  | inr rest ↦ elim (Bool-cases (eqb (code c) 45)) [
    | inl negative ↦ rw (rest, negative) (negative_32-IsInt32 (parse_digits s))
    | inr digit ↦ rw (rest, digit) (positive_32-IsInt32 (parse_digits (String.◌∷◌ c s)))
  ]
]

-- What is parsed is in range.
pub parse_int32-IsInt32 : (s : String) (z : ℤ) → parse_int32 s ≡ some z → IsInt32 z
parse_int32-IsInt32 s z h = rw h at (parse_int32-IsInt32Result s)

parsed :
    (parse_int32 "+8089" ≡ some (pos 8089))
    × (parse_int32 "-2147483648" ≡ some (negsuc 2147483647))
    × (parse_int32 "2147483648" ≡ none)
    × (parse_int32 "80a" ≡ none)
    × (parse_int32 "-" ≡ none)
    × (format_int (negsuc 41) ≡ "-42")
unfolding parse_int32 digits_after format_int
parsed = (refl, refl, refl, refl, refl, refl)
