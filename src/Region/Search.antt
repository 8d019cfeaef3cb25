-- ===== src/Region/Search.antt =====
-- `ip_search`: a binary search over segments of addresses.
pub mod Found
use report_api.Prelude.{
  ℕ, zero, suc, ◌+◌, ◌-◌, ◌/◌, Bool, true, false, not, ◌&&◌, Option, none, some, List, [], ◌∷◌,
  length, get_or, ltb,
}
use report_api.Go.Text.{Bytes, str_lt}

-- An entry of the table: the first and the last address of a segment, and its region.
pub record Segment : Type 0 where
  pub s : Bytes
  pub e : Bytes
  pub v : Bytes

abbrev pub no_segment : Segment
no_segment = record { s = []; e = []; v = [] }

-- `ips[i]`, where the loop's index is in range.
abbrev pub segment_at : List Segment → ℕ → Segment
segment_at ips i = get_or ips i no_segment

-- `cmp_s < 1 && cmp_e > -1`.
unfoldable pub holds : Segment → Bytes → Bool
holds ip sip = not (str_lt sip ip.s) && not (str_lt ip.e sip)

abbrev pub middle : ℕ → ℕ → ℕ
middle low bound = low + (bound - 1 - low) / 2

-- The loop from one pair of indices on, where `bound` is `height + 1`. `none` is a loop that has run
-- out of fuel.
unfoldable pub search : List Segment → Bytes → ℕ → ℕ → ℕ → Option Bytes
unfolding holds str_lt
search ips sip zero low bound = none
search ips sip (suc fuel) low bound = elim (ltb low bound) [
  | false ↦ some []
  | true ↦
      let mid = middle low bound in
      let ip = segment_at ips mid in
      elim (holds ip sip) [
        | true ↦ some ip.v
        | false ↦ elim (str_lt sip ip.s) [
          | true ↦ search ips sip fuel low mid
          | false ↦ elim (str_lt ip.s sip) [
            | true ↦ search ips sip fuel (mid + 1) bound
            | false ↦ search ips sip fuel low bound
          ]
        ]
      ]
]

-- Each round that goes on leaves fewer segments where their ends are in order.
unfoldable pub ip_search : List Segment → Bytes → Option Bytes
unfolding search
ip_search ips sip = search ips sip (length ips + 1) 0 (length ips)
