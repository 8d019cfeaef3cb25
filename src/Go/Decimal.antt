-- ===== src/Go/Decimal.antt =====
-- The decimal print of a number that is not negative: `strconv.Itoa` and the verb `%d`.
use report_api.Prelude.{ℕ, zero, suc, ◌+◌, ◌/◌, ◌%◌, ◌≡◌, refl, [], ◌∷◌, ltb, if◌then◌else◌}
use report_api.Go.Text.{Bytes, codes}

-- The fuel is one more than the number, which has at most as many digits.
digits_of : ℕ → ℕ → Bytes → Bytes
digits_of zero n out = out
digits_of (suc fuel) n out =
    let more = digits_of fuel (n / 10) ((48 + n % 10) ∷ out) in
    if ltb n 10 then (48 + n) ∷ out else more

unfoldable pub format_nat : ℕ → Bytes
unfolding digits_of
format_nat n = digits_of (suc n) n []

format_nat_runs :
    (format_nat 0 ≡ codes "0") × (format_nat 1_700_000_000_000 ≡ codes "1700000000000")
unfolding format_nat
format_nat_runs = (refl, refl)
