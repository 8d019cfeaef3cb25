-- ===== src/Region/Load/Lookup.antt =====
-- `Get_Region_Id` over tables that were loaded from files.
use report_api.Prelude.{
  ℕ, ◌<◌, ◌≡◌, ◌≢◌, refl, true, Option, some, List, [], ◌∷◌, map, length, if◌then◌else◌, All, arith,
}
use report_api.Go.Result.{ok}
use report_api.Go.Returns.{Returns, returned}
use report_api.Go.Text.{Str, Bytes}
use report_api.Go.Text.Split.{contains}
use report_api.Region.Search.{holds, segment_at}
use report_api.Region.Search.Found.{IsOrdered, IsSorted, ip_search-finds}
use report_api.Region.Load.{
  load_ips, load_ips_ini, table_for, region_or_zero, searched_region, get_region_id,
}
use report_api.Region.Load.Printed.{
  Entry, IsPlainEntry, printed_file, segment_of, load_ips-printed_file,
}

region_or_zero-some : (v : Bytes) → v ≢ [] → region_or_zero v ≡ v
unfolding region_or_zero
region_or_zero-some [] h = absurd (h refl)
region_or_zero-some (b ∷ v) h = refl

module _ (parse_ip : Str → Option Bytes) (open_file : Str → Returns Str) where
  -- The file in which Get_Region_Id looks for an address.
  abbrev pub path_for : Str → Str → Str → Str
  path_for ipv4_path ipv6_path ip = if contains ip 58 then ipv6_path else ipv4_path

  table_for-load_ips_ini :
      (ipv4_path ipv6_path ip : Str)
      → table_for (load_ips_ini parse_ip open_file ipv4_path ipv6_path) ip
        ≡ load_ips parse_ip (open_file (path_for ipv4_path ipv6_path ip))
  unfolding table_for load_ips_ini
  table_for-load_ips_ini ipv4_path ipv6_path ip = ground arith

  -- Get_Region_Id of an address returns the region of the line that holds it, if the file for its kind
  -- of address has one quoted line for each segment, the segments are in order and apart from one
  -- another, and the region is not empty.
  pub get_region_id-finds :
      (ipv4_path ipv6_path ip : Str) (xs : List Entry) (ip_b : Bytes) (i : ℕ)
      → open_file (path_for ipv4_path ipv6_path ip) ≡ returned (printed_file xs)
      → All IsPlainEntry xs
      → let ips = map (segment_of parse_ip) xs in
        IsOrdered ips
        → IsSorted ips
        → parse_ip ip ≡ some ip_b
        → i < length ips
        → holds (segment_at ips i) ip_b ≡ true
        → (segment_at ips i).v ≢ []
        → get_region_id parse_ip (some (load_ips_ini parse_ip open_file ipv4_path ipv6_path)) ip
          ≡ some (ok (segment_at ips i).v)
  unfolding get_region_id searched_region
  get_region_id-finds ipv4_path ipv6_path ip xs ip_b i opened plain o sorted parsed l h named = rw (
    get_region_id,
    parsed,
    searched_region,
    table_for-load_ips_ini ipv4_path ipv6_path ip,
    opened,
    load_ips-printed_file parse_ip xs plain,
    ip_search-finds (map (segment_of parse_ip) xs) ip_b i o sorted l h,
    region_or_zero-some (segment_at (map (segment_of parse_ip) xs) i).v named,
  )
