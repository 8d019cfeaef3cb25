-- ===== src/Go/Text/Split.antt =====
-- `strings.Split` by one character, and `strings.Join`.
use report_api.Prelude.{
  ℕ, zero, suc, ◌-◌, length, true, ◌≡◌, refl, Bool, false, List, [], ◌∷◌, ◌++◌, ◌==◌, if◌then◌else◌,
  All, arith,
}
use report_api.Go.Text.{Str, has_prefix}

-- A character before the first part.
unfoldable pub before_first : ℕ → List Str → List Str
before_first c [] = (c ∷ []) ∷ []
before_first c (part ∷ parts) = (c ∷ part) ∷ parts

unfoldable pub split : ℕ → Str → List Str
unfolding before_first
split d [] = [] ∷ []
split d (c ∷ s) = let rest = split d s in if c == d then [] ∷ rest else before_first c rest

unfoldable pub join : Str → List Str → Str
join sep [] = []
join sep (part ∷ []) = part
join sep (part ∷ next ∷ parts) = part ++ (sep ++ join sep (next ∷ parts))

-- `strings.Contains` by one character.
unfoldable pub contains : Str → ℕ → Bool
contains [] d = false
contains (c ∷ s) d = if c == d then true else contains s d

-- `s == ""`.
unfoldable pub is_empty : Str → Bool
is_empty [] = true
is_empty (c ∷ s) = false

-- The text does not have the character.
abbrev pub IsFree : ℕ → Str → Type 0
IsFree d s = All (λ c. (c == d) ≡ false) s

pub split-free : (d : ℕ) (s : Str) → IsFree d s → split d s ≡ s ∷ []
unfolding split
split-free d [] h = refl
split-free d (c ∷ s) (h, hs) = rw (h, split-free d s hs, before_first)

pub split-part : (d : ℕ) (part s : Str) → IsFree d part → split d (part ++ d ∷ s) ≡ part ∷ split d s
unfolding split
split-part d [] s h = ground arith
split-part d (c ∷ part) s (h, hs) = rw (h, split-part d part s hs, before_first)

-- Joining parts that do not have the separator and splitting again gives them back.
pub split-join :
    (d : ℕ) (part : Str) (parts : List Str)
    → IsFree d part
    → All (IsFree d) parts
    → split d (join (d ∷ []) (part ∷ parts)) ≡ part ∷ parts
unfolding join
split-join d part [] h hs = split-free d part h
split-join d part (next ∷ parts) h (g, hs) =
    rw (split-part d part (join (d ∷ []) (next ∷ parts)) h, split-join d next parts g hs)

-- `strings.Split` by a text that is not empty. `skip` is how much of the separator at hand is still to
-- be passed over.
unfoldable pub split_from : Str → ℕ → Str → List Str
unfolding before_first has_prefix
split_from sep skip [] = [] ∷ []
split_from sep (suc skip) (c ∷ s) = split_from sep skip s
split_from sep zero (c ∷ s) =
    let hit = [] ∷ split_from sep (length sep - 1) s in
    let miss = before_first c (split_from sep 0 s) in if has_prefix (c ∷ s) sep then hit else miss

unfoldable pub split_text : Str → Str → List Str
unfolding split_from
split_text sep s = split_from sep 0 s

split_from-skip :
    (sep t s : Str) (skip : ℕ) → skip ≡ length t → split_from sep skip (t ++ s) ≡ split_from sep 0 s
unfolding split_from
split_from-skip sep [] s zero h = refl
split_from-skip sep [] s (suc skip) h = absurd (omega (arith, h))
split_from-skip sep (c ∷ t) s zero h = absurd (omega (arith, h))
split_from-skip sep (c ∷ t) s (suc skip) h = split_from-skip sep t s skip (omega (arith, h))

has_prefix-append : (t s : Str) → has_prefix (t ++ s) t ≡ true
unfolding has_prefix
has_prefix-append [] s = refl
has_prefix-append (c ∷ t) s = ground (arith, has_prefix-append t s)

split_from-free : (d : ℕ) (sep part : Str) → IsFree d part → split_from (d ∷ sep) 0 part ≡ part ∷ []
unfolding split_from has_prefix
split_from-free d sep [] h = refl
split_from-free d sep (c ∷ part) (h, hs) = rw (h, split_from-free d sep part hs, before_first)

split_from-part :
    (d : ℕ) (sep part s : Str)
    → IsFree d part
    → split_from (d ∷ sep) 0 (part ++ (d ∷ sep ++ s)) ≡ part ∷ split_from (d ∷ sep) 0 s
unfolding split_from
split_from-part d sep [] s h = rw (
  has_prefix-append (d ∷ sep) s,
  split_from-skip (d ∷ sep) sep s (length (d ∷ sep) - 1) (omega arith),
)
split_from-part d sep (c ∷ part) s (h, hs) =
    rw (has_prefix, h, split_from-part d sep part s hs, before_first)

-- Parts without the first character of the separator are given back.
pub split_text-join :
    (d : ℕ) (sep part : Str) (parts : List Str)
    → IsFree d part
    → All (IsFree d) parts
    → split_text (d ∷ sep) (join (d ∷ sep) (part ∷ parts)) ≡ part ∷ parts
unfolding split_text join
split_text-join d sep part [] h hs = split_from-free d sep part h
split_text-join d sep part (next ∷ parts) h (g, hs) = rw (
  split_from-part d sep part (join (d ∷ sep) (next ∷ parts)) h,
  split_text-join d sep next parts g hs,
)
