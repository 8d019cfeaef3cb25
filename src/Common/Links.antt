-- ===== src/Common/Links.antt =====
-- The helpers on links and queries of common/common.go: AutoArriveParams, MapKeys, GetLastValue,
-- InArray, GetAddr and IsValidIP.
use report_api.Prelude.{
  Bool, true, false, ◌&&◌, ◌||◌, ◌≡◌, ◌≢◌, refl, ◌∙◌, Bool-cases, inl, inr, Option, none, some,
  List, [], ◌∷◌, ◌++◌, append_assoc, length, ltb, ◌==◌, if◌then◌else◌,
}
use report_api.Go.Returns.{Returns, ◌>>=◌, returned}
use report_api.Go.Text.{Str, Bytes, codes, str_eq, has_suffix}
use report_api.Go.Text.Split.{split, contains, is_empty, IsFree, split-part, split-free}
use report_api.Go.Url.{Values, set, encode}

-- `s[len(s)-1]` of the parts of a text, of which there is always one.
unfoldable pub last_part : List Str → Str
last_part [] = []
last_part (part ∷ []) = part
last_part (part ∷ next ∷ parts) = last_part (next ∷ parts)

unfoldable pub first_part : List Str → Str
first_part [] = []
first_part (part ∷ parts) = part

-- There is no anchor, or an empty one.
unfoldable pub without_anchor : Str → Str → List Str → Str
unfolding last_part is_empty
without_anchor target_link code md =
    if is_empty (last_part md)
    then target_link ++ codes "&" ++ code
    else target_link ++ codes "#&" ++ code

unfoldable pub with_slash : Str → Str
unfolding has_suffix
with_slash raw = if has_suffix raw (codes "/") then raw else raw ++ codes "/"

-- There is an anchor: the link has no query, or has one.
unfoldable pub with_anchor : Str → List Str → List Str → Str
unfolding last_part first_part with_slash contains
with_anchor code md raw =
    if length raw == 1
    then with_slash (first_part raw) ++ codes "?" ++ code ++ codes "#" ++ last_part md
    else (if contains (last_part raw) 38
        then first_part md ++ code
        else first_part md ++ codes "&" ++ code)
      ++ codes "#"
      ++ last_part md

unfoldable pub auto_arrive_params : Str → Str → Str
unfolding split without_anchor with_anchor
auto_arrive_params target_link code =
    let md = split 35 target_link in
    let raw = split 63 (first_part md) in
    if (length md == 1 && length raw == 1)
      || ((length md == 1 && ltb 1 (length raw)) || is_empty (last_part md))
    then without_anchor target_link code md
    else with_anchor code md raw

unfoldable pub in_array : Str → List Str → Bool
unfolding str_eq
in_array element [] = false
in_array element (v ∷ array) = if str_eq v element then true else in_array element array

-- `mappings[oldkey]`, and the loop over the values of a key.
unfoldable pub mapping : List (Str × Str) → Str → Option Str
unfolding str_eq
mapping [] key = none
mapping ((k, name) ∷ mappings) key = if str_eq k key then some name else mapping mappings key

unfoldable pub set_values : Str → List Bytes → Values → Values
set_values name [] new_url = new_url
set_values name ([] ∷ values) new_url = set_values name values new_url
set_values name ((b ∷ value) ∷ values) new_url =
    set_values name values (set new_url name (b ∷ value))

-- The keys in the order in which the loop meets them.
unfoldable pub set_keys : List (Str × Str) → List (Str × List Bytes) → Values → Values
unfolding mapping set_values
set_keys mappings [] new_url = new_url
set_keys mappings ((key, values) ∷ rest) new_url = elim (mapping mappings key) [
  | none ↦ set_keys mappings rest new_url
  | some name ↦ set_keys mappings rest (set_values name values new_url)
]

-- `parse_query` is url.ParseQuery.
unfoldable pub map_keys :
    (Str → Returns (List (Str × List Bytes))) → Str → List (Str × Str) → Returns Bytes
unfolding set_keys encode
map_keys parse_query query mappings =
    parse_query query >>= λ values. returned (encode (set_keys mappings values []))

-- `none` is a key that is missing.
unfoldable pub get_last_value : Option (List Str) → Str
unfolding last_part
get_last_value none = []
get_last_value (some vs) = last_part vs

-- The header `X-Forwarded-For`, and `c.ClientIP()`.
unfoldable pub get_addr : Str → Str → Str
get_addr [] client_ip = client_ip
get_addr (c ∷ forwarded) client_ip = c ∷ forwarded

-- `parse_ip` is net.ParseIP.
unfoldable pub is_valid_ip : (Str → Option Bytes) → Str → Bool
is_valid_ip parse_ip ip = elim (parse_ip ip) [ none ↦ false | some address ↦ true ]

is_empty-nonempty : (s : Str) → s ≢ [] → is_empty s ≡ false
unfolding is_empty
is_empty-nonempty [] h = absurd (h refl)
is_empty-nonempty (c ∷ s) h = refl

before_anchor :
    (before code anchor : Str)
    → before ++ code ++ codes "#" ++ anchor ≡ before ++ (code ++ 35 ∷ anchor)
before_anchor before code anchor =
    append_assoc (before ++ code) (codes "#") anchor ∙ append_assoc before code (35 ∷ anchor)

-- In a link with one anchor, which is not empty, AutoArriveParams puts the parameters right before the
-- anchor, and the anchor stays the last part.
pub auto_arrive_params-anchor :
    (base anchor code : Str)
    → IsFree 35 base
    → IsFree 35 anchor
    → anchor ≢ []
    → (before : Str) × (auto_arrive_params (base ++ 35 ∷ anchor) code
        ≡ before ++ (code ++ 35 ∷ anchor))
unfolding auto_arrive_params last_part first_part
auto_arrive_params-anchor base anchor code h g n =
    let md = split-part 35 base anchor h in
    let raw = split 63 base in
    elim (Bool-cases (length raw == 1)) [
      | inl one ↦ (
        with_slash (first_part raw) ++ codes "?",
        rw (md, split-free 35 anchor g, is_empty-nonempty anchor n, with_anchor, one)
            (before_anchor (with_slash (first_part raw) ++ codes "?") code anchor),
      )
      | inr more ↦ elim (Bool-cases (contains (last_part raw) 38)) [
        | inl glued ↦ (
          base,
          rw (md, split-free 35 anchor g, is_empty-nonempty anchor n, with_anchor, more, glued)
              (before_anchor base code anchor),
        )
        | inr apart ↦ (
          base ++ codes "&",
          rw (md, split-free 35 anchor g, is_empty-nonempty anchor n, with_anchor, more, apart)
              (before_anchor (base ++ codes "&") code anchor),
        )
      ]
    ]
