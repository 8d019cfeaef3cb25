-- ===== src/Region/Area.antt =====
-- The names of regions: `Area_Init` and `Get_Area_Name` of common/region/ipparse.go. Texts are their
-- bytes here, since ids are cut by bytes.
pub mod Table
pub mod Names
use report_api.Prelude.{
  ℕ, String, Bool, true, false, List, [], ◌∷◌, ◌++◌, map, take, length, ltb, if◌then◌else◌,
}
use report_api.Go.Text.{Bytes, codes, utf8, str_eq}
use report_api.Go.Text.Split.{split, split_text, join}
use report_api.Region.Area.Table.{areas_of_provinces, areas_of_cities, areas_of_the_west}

-- The map of names, newest assignment first.
abbrev pub Area : Type 0
Area = List (Bytes × Bytes)

unfoldable pub areatmp : Bytes
unfolding join utf8
areatmp =
    join (codes "\n\t")
      (map (λ line. utf8 (codes line)) (areas_of_provinces ++ areas_of_cities ++ areas_of_the_west))

-- A line that does not have two parts is passed over.
unfoldable pub set_area : List Bytes → Area → Area
set_area (id ∷ name ∷ []) area = (id, name) ∷ area
set_area _ area = area

unfoldable pub set_areas : List Bytes → Area → Area
unfolding set_area split
set_areas [] area = area
set_areas (value ∷ arr) area = set_areas arr (set_area (split 61 value) area)

-- Area_Init on a text.
unfoldable pub area_init : Bytes → Area
unfolding set_areas split_text
area_init text = set_areas (split_text (codes "\n\t") text) []

-- `area[id]`.
unfoldable pub area_at : Area → Bytes → Bytes
unfolding str_eq
area_at [] id = []
area_at ((k, name) ∷ area) id = if str_eq k id then name else area_at area id

unfoldable pub first_name : Bytes → Bytes → Bytes
first_name [] other = other
first_name (b ∷ name) other = b ∷ name

unfoldable pub here : Bytes
unfolding utf8
here = utf8 (codes "本地")

unfoldable pub get_area_name : Area → Bytes → Bytes
unfolding area_at first_name here
get_area_name area region_id =
    if ltb (length region_id) 8
    then here
    else first_name (area_at area (take 8 region_id))
        (first_name (area_at area (take 6 region_id)) here)
