-- ===== src/Region/Load.antt =====
-- `load_ips`, `LoadIps_ini` and `Get_Region_Id` of common/region/ipparse.go. A file that was opened is
-- read without errors up to its end; the third table, Lbs, is never filled.
pub mod Printed
pub mod Lookup
use report_api.Prelude.{
  ℕ, zero, suc, Bool, true, false, Option, none, some, List, [], ◌∷◌, ◌++◌, ◌==◌, if◌then◌else◌,
}
use report_api.Go.Result.{Result, ok, panic, nil_dereference}
use report_api.Go.Returns.{Returns, failed, returned}
use report_api.Go.Text.{Str, Bytes, codes, utf8}
use report_api.Go.Text.Trim.{trim_space}
use report_api.Go.Text.Replace.{replace_all}
use report_api.Go.Text.Split.{split, before_first, contains}
use report_api.Region.Search.{Segment, ip_search}

pub record Ips : Type 0 where
  pub ipv4s : List Segment
  pub ipv6s : List Segment

-- What `buf.ReadString('\n')` returns in turn: each line with its end, then the rest with io.EOF.
unfoldable pub read_strings : Str → List Str
unfolding before_first
read_strings [] = [] ∷ []
read_strings (c ∷ s) =
    let rest = read_strings s in if c == 10 then (10 ∷ []) ∷ rest else before_first c rest

unfoldable pub table_for : Ips → Str → List Segment
unfolding contains
table_for sys_ip ip = if contains ip 58 then sys_ip.ipv6s else sys_ip.ipv4s

unfoldable pub region_or_zero : Bytes → Bytes
region_or_zero [] = codes "0"
region_or_zero (b ∷ req) = b ∷ req

-- `net.ParseIP`, where `none` is nil.
module _ (parse_ip : Str → Option Bytes) where
  -- `bytes.Compare` takes nil for an empty address.
  unfoldable pub address : Str → Bytes
  address text = elim (parse_ip text) [ none ↦ [] | some ip ↦ ip ]

  -- A line with 3 or 4 parts is a segment, any other is passed over.
  unfoldable pub segments_of_parts : List Str → List Segment
  unfolding address
  segments_of_parts (s ∷ e ∷ v ∷ []) = record { s = address s; e = address e; v = utf8 v } ∷ []
  segments_of_parts (s ∷ e ∷ v ∷ rest ∷ []) =
      record { s = address s; e = address e; v = utf8 v } ∷ []
  segments_of_parts _ = []

  unfoldable pub segments_of_line : Str → List Segment
  unfolding segments_of_parts replace_all split
  segments_of_line line = segments_of_parts (split 44 (replace_all line (codes "\"") []))

  unfoldable pub segments_at_end : Str → List Segment
  unfolding segments_of_line
  segments_at_end [] = []
  segments_at_end (c ∷ line) = segments_of_line (c ∷ line)

  -- The loop on the lines that are left, of which the last is read with io.EOF: where it is not blank
  -- the next read ends the loop.
  unfoldable pub segments_of_lines : List Str → List Segment
  unfolding segments_of_line segments_at_end trim_space
  segments_of_lines [] = []
  segments_of_lines (l ∷ []) = segments_at_end (trim_space l)
  segments_of_lines (l ∷ m ∷ ls) = segments_of_line (trim_space l) ++ segments_of_lines (m ∷ ls)

  -- Reading from a file that could not be opened fails at once, with no text.
  unfoldable pub load_ips : Returns Str → List Segment
  unfolding segments_of_lines read_strings
  load_ips (failed e) = []
  load_ips (returned text) = segments_of_lines (read_strings text)

  -- `os.Open` is given by the files.
  unfoldable pub load_ips_ini : (Str → Returns Str) → Str → Str → Ips
  unfolding load_ips
  load_ips_ini open_file ipv4_path ipv6_path = record {
    ipv4s = load_ips (open_file ipv4_path);
    ipv6s = load_ips (open_file ipv6_path);
  }

  -- `none` is a search that never ends. Before LoadIps_ini has run, `sysIp` is nil.
  unfoldable pub searched_region : Option Ips → Str → Bytes → Option (Result Bytes)
  unfolding table_for region_or_zero
  searched_region none ip ip_b = some (panic nil_dereference)
  searched_region (some sys_ip) ip ip_b = elim (ip_search (table_for sys_ip ip) ip_b) [
    | none ↦ none
    | some req ↦ some (ok (region_or_zero req))
  ]

  unfoldable pub get_region_id : Option Ips → Str → Option (Result Bytes)
  unfolding searched_region
  get_region_id sys_ip ip = elim (parse_ip ip) [
    | none ↦ some (ok (codes "0"))
    | some ip_b ↦ searched_region sys_ip ip ip_b
  ]
