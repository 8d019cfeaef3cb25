-- ===== src/Go/Sort/Rearranged.antt =====
-- Sorting strings does not depend on the order in which they come.
use mathlib.Core.List.{Permᴰ}
use report_api.Prelude.{◌≡◌, refl, ap, ◌∙◌, List, [], ◌∷◌, arith}
use report_api.Go.Text.{Str, str_lt}
use report_api.Go.Text.Order.{str_lt_trans, str_lt_asym, str_le_antisym}
use report_api.Go.Sort.{insert, insert_all, sort}

insert_comm :
    (a b : Str) (l : List Str)
    → insert str_lt a (insert str_lt b l) ≡ insert str_lt b (insert str_lt a l)
unfolding insert
insert_comm a b [] = ground (arith, str_lt_asym a b, str_le_antisym a b)
insert_comm a b (x ∷ l) = ground (
  arith,
  str_lt_asym a b,
  str_le_antisym a b,
  str_lt_trans a b x,
  str_lt_trans b a x,
  insert_comm a b l,
)

insert_all-Permᴰ :
    {xs ys : List Str}
    → Permᴰ xs ys
    → (sorted : List Str) → insert_all str_lt sorted xs ≡ insert_all str_lt sorted ys
unfolding insert_all
insert_all-Permᴰ Permᴰ.nil sorted = refl
insert_all-Permᴰ (Permᴰ.cons {b} {l₂} same p) sorted =
    rw same (insert_all-Permᴰ p (insert str_lt b sorted))
insert_all-Permᴰ (Permᴰ.swap {a} {b} {l} e f) sorted =
    rw (← e, ← f) (ap (λ start. insert_all str_lt start l) (insert_comm b a sorted))
insert_all-Permᴰ (Permᴰ.trans p q) sorted = insert_all-Permᴰ p sorted ∙ insert_all-Permᴰ q sorted

-- Two lists with the same strings are sorted into the same list.
pub sort-Permᴰ : {xs ys : List Str} → Permᴰ xs ys → sort str_lt xs ≡ sort str_lt ys
unfolding sort
sort-Permᴰ p = insert_all-Permᴰ p []
