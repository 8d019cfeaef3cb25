-- ===== src/Go/Url.antt =====
-- `url.Values` and `Values.Encode`: the pairs in the order in which they were set. A value is bytes,
-- since the program also sends decoded binary text.
use report_api.Prelude.{
  ℕ, ◌+◌, ◌/◌, ◌%◌, ◌≡◌, refl, Bool, not, ◌&&◌, ◌||◌, List, [], ◌∷◌, ◌++◌, map, filter, ltb, leb,
  ◌==◌, if◌then◌else◌,
}
use report_api.Go.Text.{Str, Bytes, codes, utf8, str_eq, str_lt}
use report_api.Go.Sort.{sort}

abbrev pub Values : Type 0
Values = List (Str × Bytes)

-- `v.Set(key, value)` drops the values that the key had.
unfoldable pub set : Values → Str → Bytes → Values
set v key value = filter (λ p. not (str_eq p.0 key)) v ++ (key, value) ∷ []

-- `v.Add(key, value)`.
unfoldable pub add : Values → Str → Bytes → Values
add v key value = v ++ (key, value) ∷ []

is_unreserved : ℕ → Bool
is_unreserved c =
    (leb b'A' c && leb c b'Z')
    || ((leb b'a' c && leb c b'z')
        || ((leb b'0' c && leb c b'9') || (c == b'-' || (c == b'_' || (c == b'.' || c == b'~')))))

hex_digit : ℕ → ℕ
hex_digit n = if ltb n 10 then b'0' + n else 55 + n

-- `url.QueryEscape`.
unfoldable pub query_escape : Bytes → Bytes
unfolding is_unreserved hex_digit
query_escape [] = []
query_escape (c ∷ s) =
    (if is_unreserved c
      then c ∷ []
      else if c == b' '
      then b'+' ∷ []
      else b'%' ∷ hex_digit (c / 16) ∷ hex_digit (c % 16) ∷ [])
    ++ query_escape s

pair : Str × Bytes → Bytes
pair p = query_escape (utf8 p.0) ++ b'=' ∷ query_escape p.1

join : List Bytes → Bytes
join [] = []
join (x ∷ []) = x
join (x ∷ y ∷ xs) = x ++ b'&' ∷ join (y ∷ xs)

-- `v.Encode()` sorts by key.
unfoldable pub encode : Values → Bytes
unfolding query_escape pair join sort utf8
encode v = join (map pair (sort (λ p q. str_lt p.0 q.0) v))

encode_runs :
    encode (
      add
        (set (set [] (codes "os") (utf8 (codes "a b"))) (codes "id") (utf8 (codes "é")))
        (codes "os")
        [])
    ≡ codes "id=%C3%A9&os=a+b&os="
unfolding encode add set str_lt str_eq
encode_runs = refl
