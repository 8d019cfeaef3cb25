-- ===== src/Region/Area/Names.antt =====
-- The names that `Get_Area_Name` finds after `Area_Init`.
use report_api.Prelude.{
  length-append, ◌≡◌, ◌≢◌, refl, ap, ◌∙◌, false, List, [], ◌∷◌, ◌++◌, map, take, take-append,
  length, ltb, All, arith,
}
use report_api.Go.Text.{Bytes, codes, str_eq, str_eq_refl}
use report_api.Go.Text.Split.{join, IsFree, split-part, split-free, split_text-join}
use report_api.Region.Area.{
  Area, set_area, set_areas, area_init, area_at, first_name, here, get_area_name,
}

-- A line `id=name`.
pub record Named : Type 0 where
  pub id : Bytes
  pub name : Bytes

abbrev pub line_of : Named → Bytes
line_of x = x.id ++ 61 ∷ x.name

-- Neither part has an equals sign or an end of line.
abbrev pub IsLine : Named → Type 0
IsLine x = IsFree 61 x.id × IsFree 61 x.name × IsFree 10 (line_of x)

abbrev pub IsOther : Bytes → Named → Type 0
IsOther id x = str_eq x.id id ≡ false

set_areas-line :
    (x : Named) (lines : List Bytes) (area : Area)
    → IsLine x
    → set_areas (line_of x ∷ lines) area ≡ set_areas lines ((x.id, x.name) ∷ area)
unfolding set_areas
set_areas-line x lines area (h, g, f) =
    rw (split-part 61 x.id x.name h, split-free 61 x.name g, set_area)

area_at-other :
    (xs : List Named) (area : Area) (id : Bytes)
    → All IsLine xs
    → All (IsOther id) xs
    → area_at (set_areas (map line_of xs) area) id ≡ area_at area id
area_at-other [] area id h o = unfold set_areas in refl
area_at-other (x ∷ xs) area id (h, hs) (o, os) =
    ap (λ held. area_at held id) (set_areas-line x (map line_of xs) area h)
    ∙ area_at-other xs ((x.id, x.name) ∷ area) id hs os
    ∙ unfold area_at in rw o refl

area_at-last :
    (before after : List Named) (x : Named) (area : Area)
    → All IsLine (before ++ x ∷ after)
    → All (IsOther x.id) after
    → area_at (set_areas (map line_of (before ++ x ∷ after)) area) x.id ≡ x.name
area_at-last [] after x area (h, hs) o =
    ap (λ held. area_at held x.id) (set_areas-line x (map line_of after) area h)
    ∙ area_at-other after ((x.id, x.name) ∷ area) x.id hs o
    ∙ unfold area_at in rw (str_eq_refl x.id) refl
area_at-last (y ∷ before) after x area (h, hs) o =
    ap (λ held. area_at held x.id) (set_areas-line y (map line_of (before ++ x ∷ after)) area h)
    ∙ area_at-last before after x ((y.id, y.name) ∷ area) hs o

-- The text of the lines.
abbrev pub text_of : List Named → Bytes
text_of xs = join (codes "\n\t") (map line_of xs)

lines-IsFree : (xs : List Named) → All IsLine xs → All (IsFree 10) (map line_of xs)
lines-IsFree [] h = tt
lines-IsFree (x ∷ xs) ((h, g, f), hs) = (f, lines-IsFree xs hs)

area_init-text_of :
    (x : Named) (xs : List Named)
    → All IsLine (x ∷ xs)
    → area_init (text_of (x ∷ xs)) ≡ set_areas (map line_of (x ∷ xs)) []
unfolding area_init
area_init-text_of x xs ((h, g, f), hs) =
    rw (split_text-join 10 (9 ∷ []) (line_of x) (map line_of xs) f (lines-IsFree xs hs))

-- The map holds the name of the last line with an id.
area_at-area_init :
    (before after : List Named) (x : Named)
    → All IsLine (before ++ x ∷ after)
    → All (IsOther x.id) after
    → area_at (area_init (text_of (before ++ x ∷ after))) x.id ≡ x.name
area_at-area_init [] after x h o =
    ap (λ held. area_at held x.id) (area_init-text_of x after h) ∙ area_at-last [] after x [] h o
area_at-area_init (y ∷ before) after x h o =
    ap (λ held. area_at held x.id) (area_init-text_of y (before ++ x ∷ after) h)
    ∙ area_at-last (y ∷ before) after x [] h o

first_name-some : (name other : Bytes) → name ≢ [] → first_name name other ≡ name
unfolding first_name
first_name-some [] other h = absurd (h refl)
first_name-some (b ∷ name) other h = refl

-- After Area_Init has read lines of the form "id=name", Get_Area_Name of a region that begins with an
-- id of eight bytes is the name on the last line with this id, if it is not empty.
pub get_area_name-area_init :
    (before after : List Named) (x : Named) (rest : Bytes)
    → All IsLine (before ++ x ∷ after)
    → All (IsOther x.id) after
    → length x.id ≡ 8
    → x.name ≢ []
    → get_area_name (area_init (text_of (before ++ x ∷ after))) (x.id ++ rest) ≡ x.name
unfolding get_area_name
get_area_name-area_init before after x rest h o l named =
    let long : ltb (length (x.id ++ rest)) 8 ≡ false = ground (arith, length-append x.id rest) in
    rw (
      long,
      take-append 8 x.id rest l,
      area_at-area_init before after x h o,
      first_name-some x.name
          (first_name (area_at (area_init (text_of (before ++ x ∷ after))) (take 6 (x.id ++ rest)))
            here)
          named,
    )
