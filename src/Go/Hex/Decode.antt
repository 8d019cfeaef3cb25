-- ===== src/Go/Hex/Decode.antt =====
-- `hex.DecodeString`, and `strings.ToLower` on ASCII text.
use report_api.Prelude.{
  ℕ, ◌+◌, ◌-◌, ◌*◌, ◌/◌, ◌%◌, ◌<◌, ◌≡◌, refl, ap, ◌&&◌, Option, none, some, [], ◌∷◌, map, leb,
  if◌then◌else◌, All, arith,
}
use report_api.Go.Result.{Error, external}
use report_api.Go.Text.{Bytes}
use report_api.Go.Hex.{digit, hex, upper, to_upper}

unfoldable pub lower : ℕ → ℕ
lower c = if leb b'A' c && leb c b'Z' then c + 32 else c

unfoldable pub to_lower : Bytes → Bytes
unfolding lower
to_lower s = map lower s

unfoldable pub from_hex : ℕ → Option ℕ
from_hex c =
    if leb b'0' c && leb c b'9'
    then some (c - b'0')
    else if leb b'a' c && leb c b'f'
    then some (c - b'a' + 10)
    else if leb b'A' c && leb c b'F'
    then some (c - b'A' + 10)
    else none

-- The bytes before the first pair that is not one, and the error.
unfoldable pub decode : Bytes → Bytes × Option Error
unfolding from_hex
decode [] = ([], none)
decode (c ∷ []) = ([], some (external 0))
decode (c ∷ d ∷ s) =
    let rest = decode s in
    elim (from_hex c) [
      | none ↦ ([], some (external 0))
      | some h ↦ elim (from_hex d) [
        | none ↦ ([], some (external 0))
        | some l ↦ ((h * 16 + l) ∷ rest.0, rest.1)
      ]
    ]

pub from_hex-digit : (n : ℕ) → n < 16 → from_hex (digit n) ≡ some n
unfolding from_hex digit
from_hex-digit n h = ground arith

lower-digit : (n : ℕ) → n < 16 → lower (digit n) ≡ digit n
unfolding lower digit
lower-digit n h = ground arith

lower-upper : (n : ℕ) → n < 16 → lower (upper (digit n)) ≡ digit n
unfolding lower digit upper
lower-upper n h = ground arith

-- Every entry is a byte.
abbrev pub IsBytes : Bytes → Type 0
IsBytes text = All (λ b. b < 256) text

-- Decoding digits in lower case.
pub decode-hex : (text : Bytes) → IsBytes text → decode (hex text) ≡ (text, none)
unfolding decode hex
decode-hex [] h = refl
decode-hex (b ∷ text) (h, hs) =
    rw
      (
        hex,
        decode,
        from_hex-digit (b / 16) (omega arith),
        from_hex-digit (b % 16) (omega arith),
        decode-hex text hs,
      )
      (ap (λ c. (c ∷ text, none)) (omega arith))

pub to_lower-hex : (text : Bytes) → IsBytes text → to_lower (hex text) ≡ hex text
unfolding to_lower hex
to_lower-hex [] h = refl
to_lower-hex (b ∷ text) (h, hs) =
    rw
      (lower-digit (b / 16) (omega arith), lower-digit (b % 16) (omega arith), to_lower-hex text hs)

pub to_lower-to_upper : (text : Bytes) → IsBytes text → to_lower (to_upper (hex text)) ≡ hex text
unfolding to_lower hex to_upper
to_lower-to_upper [] h = refl
to_lower-to_upper (b ∷ text) (h, hs) = rw (
  lower-upper (b / 16) (omega arith),
  lower-upper (b % 16) (omega arith),
  to_lower-to_upper text hs,
)
