-- ===== src/Go/Strconv.antt =====
-- `strconv.Atoi` and `strconv.ParseInt(s, 10, 64)` on a 64-bit platform; `none` is a returned error.
use report_api.Prelude.{
  ℕ, ◌+◌, ◌-◌, ◌*◌, ◌^◌, ◌≡◌, refl, Bool, true, false, ◌&&◌, Option, none, some, [], ◌∷◌, ltb, leb,
  ◌==◌, if◌then◌else◌,
}
use report_api.Prelude.Int.{ℤ, pos, negsuc}
use report_api.Go.Text.{Str, codes}

is_digit : ℕ → Bool
is_digit c = leb b'0' c && leb c b'9'

-- The number that the digits spell behind `n`.
digits : ℕ → Str → Option ℕ
digits n [] = some n
digits n (c ∷ s) = let rest = digits (n * 10 + (c - b'0')) s in if is_digit c then rest else none

-- A number needs a digit.
magnitude : Str → Option ℕ
unfolding digits is_digit
magnitude [] = none
magnitude (c ∷ s) = digits 0 (c ∷ s)

positive : Option ℕ → Option ℤ
positive none = none
positive (some n) = if ltb n (2 ^ 63) then some (pos n) else none

negative : Option ℕ → Option ℤ
negative none = none
negative (some n) =
    if n == 0 then some (pos 0) else if leb n (2 ^ 63) then some (negsuc (n - 1)) else none

unfoldable pub atoi : Str → Option ℤ
unfolding magnitude positive negative
atoi [] = none
atoi (c ∷ s) =
    if c == b'-'
    then negative (magnitude s)
    else if c == b'+'
    then positive (magnitude s)
    else positive (magnitude (c ∷ s))

atoi_runs : (atoi (codes "-12") ≡ some (negsuc 11)) × (atoi (codes "+7") ≡ some (pos 7))
unfolding atoi
atoi_runs = (refl, refl)

atoi_refuses :
    (atoi (codes "12a") ≡ none)
    × (atoi (codes "") ≡ none)
    × (atoi (codes "-") ≡ none)
    × (atoi (codes "9223372036854775808") ≡ none)
unfolding atoi
atoi_refuses = (refl, refl, refl, refl)

atoi_least : atoi (codes "-9223372036854775808") ≡ some (negsuc (2 ^ 63 - 1))
unfolding atoi
atoi_least = refl

-- The value of `strconv.ParseInt(s, 10, 64)` whose error is ignored: 0 for what is no number, and the
-- nearest limit for a number out of range.
clamp : Bool → Option ℕ → ℤ
clamp minus none = pos 0
clamp true (some n) =
    if n == 0 then pos 0 else if leb n (2 ^ 63) then negsuc (n - 1) else negsuc (2 ^ 63 - 1)
clamp false (some n) = if ltb n (2 ^ 63) then pos n else pos (2 ^ 63 - 1)

unfoldable pub parse_int_value : Str → ℤ
unfolding magnitude clamp
parse_int_value [] = pos 0
parse_int_value (c ∷ s) =
    if c == b'-'
    then clamp true (magnitude s)
    else if c == b'+'
    then clamp false (magnitude s)
    else clamp false (magnitude (c ∷ s))

parse_int_value_runs :
    (parse_int_value (codes "-12") ≡ negsuc 11)
    × (parse_int_value (codes "x") ≡ pos 0)
    × (parse_int_value (codes "9223372036854775809") ≡ pos (2 ^ 63 - 1))
unfolding parse_int_value
parse_int_value_runs = (refl, refl, refl)
