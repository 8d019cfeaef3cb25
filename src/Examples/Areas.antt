-- ===== src/Examples/Areas.antt =====
-- A file of two segments, and the table of area names.
use report_api.Prelude.{zero, suc, ◌≡◌, ◌≢◌, refl, Option, none, some, List, [], ◌∷◌, map, arith}
use report_api.Go.Result.{ok, external}
use report_api.Go.Returns.{Returns, failed, returned}
use report_api.Go.Text.{Str, Bytes, codes, utf8, encode_rune, str_eq, str_lt, has_prefix}
use report_api.Go.Text.Split.{contains, split, split_text, split_from, before_first, join}
use report_api.Region.Search.{Segment, holds, segment_at}
use report_api.Region.Search.Found.{IsOrdered, IsSorted}
use report_api.Region.Load.{address, load_ips_ini, get_region_id}
use report_api.Region.Load.Printed.{Entry, printed_file, segment_of}
use report_api.Region.Load.Lookup.{get_region_id-finds}
use report_api.Region.Area.{
  Area, areatmp, area_init, set_areas, set_area, area_at, first_name, here, get_area_name,
}
use report_api.Region.Area.Names.{Named, text_of, get_area_name-area_init}

abbrev parse_ip : Str → Option Bytes
parse_ip [] = none
parse_ip (c ∷ s) = some (c ∷ s)

abbrev low_entry : Entry
low_entry = record { first = codes "10"; last = codes "19"; region = codes "11561301" }

abbrev high_entry : Entry
high_entry = record { first = codes "20"; last = codes "29"; region = codes "115612" }

abbrev entries : List Entry
entries = low_entry ∷ high_entry ∷ []

abbrev segment_files : Str → Returns Str
segment_files [] = failed (external 0)
segment_files (c ∷ path) = returned (printed_file entries)

abbrev ips : List Segment
ips = map (segment_of parse_ip) entries

ips-IsOrdered : IsOrdered ips
unfolding str_lt address
ips-IsOrdered zero h = refl
ips-IsOrdered (suc zero) h = refl
ips-IsOrdered (suc (suc i)) h = absurd (omega (arith, h))

ips-IsSorted : IsSorted ips
unfolding str_lt address
ips-IsSorted zero zero h l = absurd (omega (arith, h))
ips-IsSorted zero (suc zero) h l = refl
ips-IsSorted (suc i) (suc zero) h l = absurd (omega (arith, h))
ips-IsSorted (suc i) zero h l = absurd (omega (arith, h))
ips-IsSorted i (suc (suc j)) h l = absurd (omega (arith, l))

region_named : (segment_at ips 1).v ≢ []
unfolding utf8 encode_rune
region_named e = cc

get_region_id-finds_example :
    get_region_id parse_ip
      (some (load_ips_ini parse_ip segment_files (codes "v4") (codes "v6")))
      (codes "25")
    ≡ some (ok (utf8 (codes "115612")))
get_region_id-finds_example =
    get_region_id-finds parse_ip segment_files (codes "v4") (codes "v6") (codes "25") entries
      (codes "25") 1 (unfold contains in refl) (ground arith) ips-IsOrdered ips-IsSorted refl
      (omega arith) (unfold holds str_lt address in refl) region_named

abbrev shijiazhuang : Named
shijiazhuang = record { id = codes "11561301"; name = 90 ∷ [] }

abbrev beijing : Named
beijing = record { id = codes "115611"; name = 91 ∷ [] }

get_area_name-area_init_example :
    get_area_name (area_init (text_of (beijing ∷ shijiazhuang ∷ beijing ∷ []))) (codes "1156130102")
    ≡ 90 ∷ []
get_area_name-area_init_example =
    get_area_name-area_init (beijing ∷ []) (beijing ∷ []) shijiazhuang (codes "02") (ground arith)
      ((unfold str_eq in refl), tt) refl (λ e. cc)

abbrev areas : Area
areas = area_init areatmp

area_of_a_city : get_area_name areas (codes "11561301") ≡ utf8 (codes "石家庄")
unfolding areatmp area_init split_text split_from before_first has_prefix set_areas set_area split
    join utf8 encode_rune area_at first_name here get_area_name str_eq
area_of_a_city = refl
