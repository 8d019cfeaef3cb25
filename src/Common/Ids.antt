-- ===== src/Common/Ids.antt =====
-- The digests and ids of common/common.go: MD5V, StrMd5 and Generate_uid.
use report_api.Prelude.{
  ◌+◌, ◌/◌, ◌%◌, ◌≡◌, ◌≢◌, refl, sym, ap, ◌∙◌, Bool, true, false, ◌&&◌, none, some, [], ◌∷◌, ◌++◌,
  take, drop, length, ◌==◌, if◌then◌else◌, arith,
}
use report_api.Go.Text.{Bytes}
use report_api.Go.Md5.{md5, md5-IsBytes}
use report_api.Go.Hex.{hex}
use report_api.Go.Hex.Decode.{IsBytes, from_hex, from_hex-digit, decode, to_lower, to_lower-hex}

-- `h.Sum(b)` appends the digest to `b`.
unfoldable pub md5v : Bytes → Bytes → Bytes
unfolding hex
md5v str b = hex (b ++ md5 str)

unfoldable pub str_md5 : Bytes → Bytes
unfolding md5v
str_md5 str = md5v str []

-- The characters of `^[0-9a-f]{32}$` under `(?i)`, which a text in lower case has only as digits.
unfoldable pub all_digits : Bytes → Bool
unfolding from_hex
all_digits [] = true
all_digits (c ∷ s) = let rest = all_digits s in elim (from_hex c) [ none ↦ false | some n ↦ rest ]

unfoldable pub is_digest : Bytes → Bool
unfolding all_digits
is_digest str = length str == 32 && all_digits str

-- `dst[4:13]` of the sixteen bytes of a digest.
unfoldable pub middle_bytes : Bytes → Bytes
middle_bytes dst = take 9 (drop 4 dst)

unfoldable pub digest_of : Bytes → Bytes
unfolding is_digest str_md5
digest_of str = if is_digest str then str else str_md5 str

unfoldable pub uid_of : (Bytes → Bytes) → Bytes → Bytes
unfolding digest_of middle_bytes decode str_md5
uid_of base64_encode str = base64_encode (middle_bytes (decode (str_md5 (digest_of str))).0)

-- The text is ASCII. `base64_encode` is base64.StdEncoding.EncodeToString.
unfoldable pub generate_uid : (Bytes → Bytes) → Bytes → Bytes
unfolding uid_of to_lower
generate_uid base64_encode [] = []
generate_uid base64_encode (c ∷ str) = uid_of base64_encode (to_lower (c ∷ str))

length-hex : (text : Bytes) → length (hex text) ≡ length text + length text
unfolding hex
length-hex [] = refl
length-hex (b ∷ text) = omega (arith, length-hex text)

all_digits-hex : (text : Bytes) → IsBytes text → all_digits (hex text) ≡ true
unfolding all_digits hex
all_digits-hex [] h = refl
all_digits-hex (b ∷ text) (h, hs) = rw (
  all_digits,
  from_hex-digit (b / 16) (omega arith),
  from_hex-digit (b % 16) (omega arith),
  all_digits-hex text hs,
)

is_digest-str_md5 : (str : Bytes) → is_digest (str_md5 str) ≡ true
unfolding is_digest str_md5 md5v
is_digest-str_md5 str =
    let (bytes, l) = md5-IsBytes str in rw (length-hex (md5 str), l, all_digits-hex (md5 str) bytes)

digest_of-str_md5 : (str : Bytes) → digest_of (str_md5 str) ≡ str_md5 str
unfolding digest_of
digest_of-str_md5 str = rw (is_digest-str_md5 str)

generate_uid-nonempty :
    (base64_encode : Bytes → Bytes) (str : Bytes)
    → str ≢ []
    → generate_uid base64_encode str ≡ uid_of base64_encode (to_lower str)
unfolding generate_uid
generate_uid-nonempty base64_encode [] h = absurd (h refl)
generate_uid-nonempty base64_encode (c ∷ str) h = refl

length-str_md5 : (str : Bytes) → length (str_md5 str) ≡ 32
unfolding str_md5 md5v
length-str_md5 str = omega (arith, length-hex (md5 str), (md5-IsBytes str).1)

to_lower-str_md5 : (str : Bytes) → to_lower (str_md5 str) ≡ str_md5 str
unfolding str_md5 md5v
to_lower-str_md5 str = to_lower-hex (md5 str) (md5-IsBytes str).0

nonempty : (str : Bytes) → length str ≡ 32 → str ≢ []
nonempty [] h e = absurd (omega (arith, h))
nonempty (c ∷ str) h e = cc

-- An id that is not itself the 32 digits of a digest has the same uid as its MD5 digest.
pub generate_uid-str_md5 :
    (base64_encode : Bytes → Bytes) (str : Bytes)
    → str ≢ []
    → is_digest (to_lower str) ≡ false
    → generate_uid base64_encode (str_md5 (to_lower str)) ≡ generate_uid base64_encode str
unfolding uid_of
generate_uid-str_md5 base64_encode str h n =
    let t = to_lower str in
    let own : digest_of t ≡ str_md5 t = unfold digest_of in rw n refl in
    generate_uid-nonempty base64_encode (str_md5 t) (nonempty (str_md5 t) (length-str_md5 t))
    ∙ ap (uid_of base64_encode) (to_lower-str_md5 t)
    ∙ ap (λ d. base64_encode (middle_bytes (decode (str_md5 d)).0)) (digest_of-str_md5 t ∙ sym own)
    ∙ sym (generate_uid-nonempty base64_encode str h)
