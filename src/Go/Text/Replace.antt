-- ===== src/Go/Text/Replace.antt =====
-- `strings.ReplaceAll` for a non-empty old text.
use report_api.Prelude.{
  ℕ, zero, suc, ◌-◌, ◌≡◌, refl, not, [], ◌∷◌, ◌++◌, arith, ◌==◌, length, filter, if◌then◌else◌,
}
use report_api.Go.Text.{Str, has_prefix}

-- `skip` is how much of the match at hand is still to be passed over.
replace_from : Str → Str → ℕ → Str → Str
replace_from old new skip [] = []
replace_from old new (suc skip) (c ∷ s) = replace_from old new skip s
replace_from old new zero (c ∷ s) =
    let hit = new ++ replace_from old new (length old - 1) s in
    let miss = c ∷ replace_from old new 0 s in if has_prefix (c ∷ s) old then hit else miss

unfoldable pub replace_all : Str → Str → Str → Str
unfolding replace_from has_prefix
replace_all s old new = replace_from old new 0 s

remove_from : (d : ℕ) (s : Str) → replace_from (d ∷ []) [] 0 s ≡ filter (λ c. not (c == d)) s
unfolding replace_from has_prefix
remove_from d [] = refl
remove_from d (c ∷ s) = ground (arith, remove_from d s)

-- Replacing one character by nothing keeps the other characters.
pub replace_all-filter :
    (d : ℕ) (s : Str) → replace_all s (d ∷ []) [] ≡ filter (λ c. not (c == d)) s
unfolding replace_all
replace_all-filter d s = remove_from d s
