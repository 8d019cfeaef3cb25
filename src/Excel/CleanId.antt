-- ===== src/Excel/CleanId.antt =====
-- Ids that are compared across the two tables: `clean_id` and `trim_space`.
use mathlib.Core.List.{reverse-append, reverse-reverse, reverse-cons}
use report_api.Prelude.{
  ℕ, ◌≡◌, ◌≢◌, refl, All, sym, ap, ◌∙◌, Bool, true, false, not, ◌&&◌, [], ◌∷◌, ◌++◌, reverse,
  filter, filter-append, append-nil, arith, Bool-cases, inl, inr, ◌==◌,
}
use report_api.Go.Text.{Str}
use report_api.Go.Text.Trim.{is_space, trim_left, trim_space}
use report_api.Go.Text.Replace.{replace_all-filter}
use report_api.Excel.{clean_id}

-- The text does not begin with white space.
abbrev pub StartsSolid : Str → Type 0
StartsSolid [] = Unit {0}
StartsSolid (c ∷ s) = is_space c ≡ false

trim_left-StartsSolid : (s : Str) → StartsSolid (trim_left s)
unfolding trim_left
trim_left-StartsSolid [] = tt
trim_left-StartsSolid (c ∷ s) = elim (Bool-cases (is_space c)) [
  | inl space ↦ rw (space, trim_left) (trim_left-StartsSolid s)
  | inr solid ↦ rw (solid, trim_left) solid
]

-- What is cut off stands in front.
trim_left-suffix : (s : Str) → (p : Str) × (s ≡ p ++ trim_left s)
unfolding trim_left
trim_left-suffix [] = ([], refl)
trim_left-suffix (c ∷ s) = elim (Bool-cases (is_space c)) [
  | inl space ↦
      let (p, e) = trim_left-suffix s in (c ∷ p, rw (space, trim_left) (ap (λ t. c ∷ t) e))
  | inr solid ↦ ([], rw (solid, trim_left))
]

StartsSolid-prefix : (s t : Str) → StartsSolid (s ++ t) → StartsSolid s
StartsSolid-prefix [] t h = tt
StartsSolid-prefix (c ∷ s) t h = h

trim_space-ends : (s : Str) → StartsSolid (trim_space s) × StartsSolid (reverse (trim_space s))
unfolding trim_space
trim_space-ends s =
    let a = trim_left s in
    let (p, e) = trim_left-suffix (reverse a) in
    let split : a ≡ reverse (trim_left (reverse a)) ++ reverse p =
      sym (reverse-reverse a) ∙ ap reverse e ∙ reverse-append p (trim_left (reverse a)) in
    (
      StartsSolid-prefix _ (reverse p) (rw split at (trim_left-StartsSolid s)),
      rw (reverse-reverse (trim_left (reverse a))) (trim_left-StartsSolid (reverse a)),
    )

-- A character that `clean_id` keeps inside an id.
is_kept : ℕ → Bool
is_kept c = not (c == 9) && (not (c == 10) && not (c == 13))

filter-filter3 :
    (s : Str)
    → filter (λ c. not (c == 13)) (filter (λ c. not (c == 10)) (filter (λ c. not (c == 9)) s))
      ≡ filter is_kept s
unfolding is_kept
filter-filter3 [] = refl
filter-filter3 (c ∷ s) = ground (arith, filter-filter3 s)

clean_id-filter : (s : Str) → clean_id s ≡ filter is_kept (trim_space s)
unfolding clean_id
clean_id-filter s = simp replace_all-filter (filter-filter3 (trim_space s))

kept_of_solid : (c : ℕ) → is_space c ≡ false → is_kept c ≡ true
unfolding is_kept is_space
kept_of_solid c h = ground arith

filter-StartsSolid : (s : Str) → StartsSolid s → StartsSolid (filter is_kept s)
filter-StartsSolid [] h = tt
filter-StartsSolid (c ∷ s) h = rw (kept_of_solid c h) h

filter-reverse : (s : Str) → reverse (filter is_kept s) ≡ filter is_kept (reverse s)
filter-reverse [] = refl
filter-reverse (c ∷ s) = rw (reverse-cons c s) (
    filter-last (is_kept c) refl
    ∙ ap (λ t. t ++ filter is_kept (c ∷ [])) (filter-reverse s)
    ∙ sym (filter-append is_kept (reverse s) (c ∷ [])))
  where
    filter-last :
        (b : Bool)
        → is_kept c ≡ b
        → reverse (filter is_kept (c ∷ s)) ≡ reverse (filter is_kept s) ++ filter is_kept (c ∷ [])
    filter-last true e = rw e (reverse-cons c (filter is_kept s))
    filter-last false e = rw e (sym (append-nil _))

-- The text has no tab and no end of a line, and neither begins nor ends with white space.
pub record IsClean (s : Str) : Type 0 where
  pub front : StartsSolid s
  pub back : StartsSolid (reverse s)
  pub no_breaks : All (λ c. (c ≢ 9) × (c ≢ 10) × (c ≢ 13)) s

kept_code : (c : ℕ) → is_kept c ≡ true → (c ≢ 9) × (c ≢ 10) × (c ≢ 13)
unfolding is_kept
kept_code c h = (
  λ e. absurd (ground (arith, h, e)),
  λ e. absurd (ground (arith, h, e)),
  λ e. absurd (ground (arith, h, e)),
)

filter-no_breaks : (s : Str) → All (λ c. (c ≢ 9) × (c ≢ 10) × (c ≢ 13)) (filter is_kept s)
filter-no_breaks [] = tt
filter-no_breaks (c ∷ s) = elim (Bool-cases (is_kept c)) [
  | inl kept ↦ rw kept (kept_code c kept, filter-no_breaks s)
  | inr dropped ↦ rw dropped (filter-no_breaks s)
]

pub clean_id-IsClean : (s : Str) → IsClean (clean_id s)
clean_id-IsClean s =
    let t = trim_space s in
    let (ahead, behind) = trim_space-ends s in
    rw (clean_id-filter s) (record {
      front = filter-StartsSolid t ahead;
      back = rw (filter-reverse t) (filter-StartsSolid (reverse t) behind);
      no_breaks = filter-no_breaks t;
    })
