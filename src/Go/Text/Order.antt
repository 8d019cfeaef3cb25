-- ===== src/Go/Text/Order.antt =====
-- The order of strings and of `bytes.Compare`.
use report_api.Prelude.{Bool-cases, inl, inr, ◌≡◌, refl, true, false, [], ◌∷◌, arith}
use report_api.Go.Text.{Bytes, str_lt}

pub str_lt_trans : (a b c : Bytes) → str_lt a b ≡ true → str_lt b c ≡ true → str_lt a c ≡ true
unfolding str_lt
str_lt_trans a b [] h k = ground arith
str_lt_trans a [] (z ∷ c) h k = ground arith
str_lt_trans [] (y ∷ b) (z ∷ c) h k = refl
str_lt_trans (x ∷ a) (y ∷ b) (z ∷ c) h k = ground (arith, str_lt_trans a b c)

-- `a ≤ b < c`.
pub str_lt_mixed : (a b c : Bytes) → str_lt b a ≡ false → str_lt b c ≡ true → str_lt a c ≡ true
unfolding str_lt
str_lt_mixed a b [] h k = ground arith
str_lt_mixed [] b (z ∷ c) h k = refl
str_lt_mixed (x ∷ a) [] (z ∷ c) h k = ground arith
str_lt_mixed (x ∷ a) (y ∷ b) (z ∷ c) h k = ground (arith, str_lt_mixed a b c)

-- `a ≤ b ≤ c`.
pub str_le_trans : (a b c : Bytes) → str_lt b a ≡ false → str_lt c b ≡ false → str_lt c a ≡ false
unfolding str_lt
str_le_trans [] b c h k = refl
str_le_trans (x ∷ a) [] c h k = ground arith
str_le_trans (x ∷ a) (y ∷ b) [] h k = ground arith
str_le_trans (x ∷ a) (y ∷ b) (z ∷ c) h k = ground (arith, str_le_trans a b c)

pub str_lt_asym : (a b : Bytes) → str_lt a b ≡ true → str_lt b a ≡ false
unfolding str_lt
str_lt_asym [] [] h = refl
str_lt_asym (x ∷ a) [] h = ground arith
str_lt_asym [] (y ∷ b) h = refl
str_lt_asym (x ∷ a) (y ∷ b) h = ground (arith, str_lt_asym a b)

-- `a < b ≤ c`.
pub str_lt_le : (a b c : Bytes) → str_lt a b ≡ true → str_lt c b ≡ false → str_lt a c ≡ true
str_lt_le a b c h k = elim (Bool-cases (str_lt a c)) [
  | inl e ↦ e
  | inr e ↦ absurd (ground (arith, str_le_trans b c a k e))
]

pub str_le_antisym : (a b : Bytes) → str_lt a b ≡ false → str_lt b a ≡ false → a ≡ b
unfolding str_lt
str_le_antisym [] [] h k = refl
str_le_antisym (x ∷ a) [] h k = ground arith
str_le_antisym [] (y ∷ b) h k = ground arith
str_le_antisym (x ∷ a) (y ∷ b) h k = ground (arith, str_le_antisym a b)
