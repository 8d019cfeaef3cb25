-- ===== src/Go/Base64.antt =====
-- `base64.StdEncoding.DecodeString`: the bytes that it returns, which are those before the first
-- corrupt quantum when it also returns an error.
use report_api.Prelude.{
  ℕ, ◌+◌, ◌-◌, ◌*◌, ◌/◌, ◌%◌, ◌≡◌, refl, Bool, ◌&&◌, ◌||◌, Option, none, some, List, [], ◌∷◌, ◌++◌,
  leb, ◌==◌, if◌then◌else◌,
}
use report_api.Go.Text.{Str, Bytes, codes, utf8}

sextet : ℕ → Option ℕ
sextet c =
    if leb b'A' c && leb c b'Z'
    then some (c - b'A')
    else if leb b'a' c && leb c b'z'
    then some (c - b'a' + 26)
    else if leb b'0' c && leb c b'9'
    then some (c - b'0' + 52)
    else if c == b'+'
    then some 62
    else if c == b'/'
    then some 63
    else none

is_newline : ℕ → Bool
is_newline c = c == b'\n' || c == b'\r'

-- Two sextets were read, then `=`: the quantum is whole only if another `=` follows.
pad_two : ℕ → ℕ → Bytes → Bytes
pad_two a b [] = []
pad_two a b (c ∷ s) =
    let rest = pad_two a b s in
    if is_newline c then rest else if c == b'=' then (a * 4 + b / 16) ∷ [] else []

padded : List ℕ → Bytes → Bytes
unfolding pad_two is_newline
padded (a ∷ b ∷ []) s = pad_two a b s
padded (a ∷ b ∷ c ∷ []) s = (a * 4 + b / 16) ∷ (b % 16 * 16 + c / 4) ∷ []
padded _ s = []

-- One more sextet: the bytes that a full quantum gives, and the sextets still pending.
push : List ℕ → ℕ → Bytes × List ℕ
push (a ∷ b ∷ c ∷ []) v = ((a * 4 + b / 16) ∷ (b % 16 * 16 + c / 4) ∷ (c % 4 * 64 + v) ∷ [], [])
push pending v = ([], pending ++ v ∷ [])

quanta : List ℕ → Bytes → Bytes
unfolding push padded sextet is_newline
quanta pending [] = []
quanta pending (c ∷ s) = elim (sextet c) [
  | some v ↦ let (out, rest) = push pending v in out ++ quanta rest s
  | none ↦
      let skip = quanta pending s in
      if is_newline c then skip else if c == b'=' then padded pending s else []
]

unfoldable pub decode_string : Str → Bytes
unfolding quanta utf8
decode_string s = quanta [] (utf8 s)

decode_string_runs :
    (decode_string (codes "aGVsbG8=") ≡ codes "hello")
    × (decode_string (codes "aGVs\nbG8hIQ==") ≡ codes "hello!!")
unfolding decode_string
decode_string_runs = (refl, refl)

-- The corrupt second quantum is dropped, and so is the text behind it.
decode_string_corrupt : decode_string (codes "aGVs?G8haGVs") ≡ codes "hel"
unfolding decode_string
decode_string_corrupt = refl
