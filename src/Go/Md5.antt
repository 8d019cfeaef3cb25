-- ===== src/Go/Md5.antt =====
-- `crypto/md5`: the digest of a text as 16 bytes, after RFC 1321.
use Prim.Native.Nat.{bit_and, bit_or, bit_xor}
use report_api.Prelude.{
  ℕ, zero, suc, ◌+◌, ◌-◌, ◌*◌, ◌/◌, ◌%◌, ◌^◌, ◌<◌, ◌≡◌, refl, List, [], ◌∷◌, ◌++◌, length, take,
  drop, get_or, All, All-append, arith,
}
use report_api.Go.Text.{Bytes, codes}
use report_api.Go.Hex.{hex}

constants : List ℕ
constants =
    0xd76aa478 ∷ 0xe8c7b756 ∷ 0x242070db ∷ 0xc1bdceee ∷ 0xf57c0faf ∷ 0x4787c62a ∷ 0xa8304613
    ∷ 0xfd469501 ∷ 0x698098d8 ∷ 0x8b44f7af ∷ 0xffff5bb1 ∷ 0x895cd7be ∷ 0x6b901122 ∷ 0xfd987193
    ∷ 0xa679438e ∷ 0x49b40821 ∷ 0xf61e2562 ∷ 0xc040b340 ∷ 0x265e5a51 ∷ 0xe9b6c7aa ∷ 0xd62f105d
    ∷ 0x02441453 ∷ 0xd8a1e681 ∷ 0xe7d3fbc8 ∷ 0x21e1cde6 ∷ 0xc33707d6 ∷ 0xf4d50d87 ∷ 0x455a14ed
    ∷ 0xa9e3e905 ∷ 0xfcefa3f8 ∷ 0x676f02d9 ∷ 0x8d2a4c8a ∷ 0xfffa3942 ∷ 0x8771f681 ∷ 0x6d9d6122
    ∷ 0xfde5380c ∷ 0xa4beea44 ∷ 0x4bdecfa9 ∷ 0xf6bb4b60 ∷ 0xbebfbc70 ∷ 0x289b7ec6 ∷ 0xeaa127fa
    ∷ 0xd4ef3085 ∷ 0x04881d05 ∷ 0xd9d4d039 ∷ 0xe6db99e5 ∷ 0x1fa27cf8 ∷ 0xc4ac5665 ∷ 0xf4292244
    ∷ 0x432aff97 ∷ 0xab9423a7 ∷ 0xfc93a039 ∷ 0x655b59c3 ∷ 0x8f0ccc92 ∷ 0xffeff47d ∷ 0x85845dd1
    ∷ 0x6fa87e4f ∷ 0xfe2ce6e0 ∷ 0xa3014314 ∷ 0x4e0811a1 ∷ 0xf7537e82 ∷ 0xbd3af235 ∷ 0x2ad7d2bb
    ∷ 0xeb86d391 ∷ []

-- The shift amounts of one round of sixteen steps.
shifts : ℕ → List ℕ
shifts zero = 7 ∷ 12 ∷ 17 ∷ 22 ∷ []
shifts (suc zero) = 5 ∷ 9 ∷ 14 ∷ 20 ∷ []
shifts (suc (suc zero)) = 4 ∷ 11 ∷ 16 ∷ 23 ∷ []
shifts _ = 6 ∷ 10 ∷ 15 ∷ 21 ∷ []

rotate : ℕ → ℕ → ℕ
rotate x k = x * 2 ^ k % 2 ^ 32 + x / 2 ^ (32 - k)

complement : ℕ → ℕ
complement x = 2 ^ 32 - 1 - x

-- The mixing function of a round, and the index of the word that its step `i` adds.
mix : ℕ → ℕ → ℕ → ℕ → ℕ
mix zero b c d = bit_or (bit_and b c) (bit_and (complement b) d)
mix (suc zero) b c d = bit_or (bit_and d b) (bit_and (complement d) c)
mix (suc (suc zero)) b c d = bit_xor b (bit_xor c d)
mix _ b c d = bit_xor c (bit_or b (complement d))

word_index : ℕ → ℕ → ℕ
word_index zero i = i
word_index (suc zero) i = (5 * i + 1) % 16
word_index (suc (suc zero)) i = (3 * i + 5) % 16
word_index _ i = 7 * i % 16

record State : Type 0 where
  a : ℕ
  b : ℕ
  c : ℕ
  d : ℕ

step : List ℕ → ℕ → ℕ → State → State
step words i k s =
    let round = i / 16 in
    let f = (mix round s.b s.c s.d + s.a + k + get_or words (word_index round i) 0) % 2 ^ 32 in
    record {
      a = s.d;
      b = (s.b + rotate f (get_or (shifts round) (i % 4) 0)) % 2 ^ 32;
      c = s.b;
      d = s.c;
    }

steps : List ℕ → ℕ → List ℕ → State → State
steps words i [] s = s
steps words i (k ∷ ks) s = steps words (i + 1) ks (step words i k s)

block : List ℕ → State → State
block words s =
    let t = steps words 0 constants s in
    record {
      a = (s.a + t.a) % 2 ^ 32;
      b = (s.b + t.b) % 2 ^ 32;
      c = (s.c + t.c) % 2 ^ 32;
      d = (s.d + t.d) % 2 ^ 32;
    }

-- One block of sixteen words for each unit of fuel.
blocks : ℕ → List ℕ → State → State
blocks zero words s = s
blocks (suc n) words s = blocks n (drop 16 words) (block (take 16 words) s)

-- Four bytes make a word, the lowest first.
words_of : Bytes → List ℕ
words_of (w ∷ x ∷ y ∷ z ∷ rest) = (w + x * 256 + y * 2 ^ 16 + z * 2 ^ 24) ∷ words_of rest
words_of _ = []

zeros : ℕ → Bytes
zeros zero = []
zeros (suc n) = 0 ∷ zeros n

little_endian : ℕ → ℕ → Bytes
little_endian zero n = []
little_endian (suc k) n = n % 256 ∷ little_endian k (n / 256)

-- A byte 0x80, zeros up to eight bytes before a whole block, and the length in bits.
padded : Bytes → Bytes
padded text =
    text ++ 0x80 ∷ zeros ((119 - length text % 64) % 64) ++ little_endian 8 (length text * 8)

digest : State → Bytes
digest s = little_endian 4 s.a ++ little_endian 4 s.b ++ little_endian 4 s.c ++ little_endian 4 s.d

start : State
start = record { a = 0x67452301; b = 0xefcdab89; c = 0x98badcfe; d = 0x10325476 }

unfoldable pub md5 : Bytes → Bytes
unfolding constants shifts rotate complement mix word_index step steps block blocks words_of zeros
    little_endian padded digest start
md5 text = let whole = padded text in digest (blocks (length whole / 64) (words_of whole) start)

md5_runs :
    (hex (md5 []) ≡ codes "d41d8cd98f00b204e9800998ecf8427e")
    × (hex (md5 (codes "abc")) ≡ codes "900150983cd24fb0d6963f7d28e17f72")
    × (hex (
          md5 (
            codes
              "12345678901234567890123456789012345678901234567890123456789012345678901234567890"))
        ≡ codes "57edf4a22be3c955ac49da2e2107b67a")
unfolding md5 hex
md5_runs = (refl, refl, refl)

little_endian-IsBytes : (k n : ℕ) → All (λ b. b < 256) (little_endian k n)
unfolding little_endian
little_endian-IsBytes zero n = tt
little_endian-IsBytes (suc k) n = (omega arith, little_endian-IsBytes k (n / 256))

All-join :
    (xs ys : Bytes) → All (λ b. b < 256) xs → All (λ b. b < 256) ys → All (λ b. b < 256) (xs ++ ys)
All-join = All-append (λ b. b < 256)

-- A digest has sixteen bytes.
digest-IsBytes : (s : State) → All (λ b. b < 256) (digest s) × (length (digest s) ≡ 16)
unfolding digest
digest-IsBytes s = (
  All-join _ _
      (All-join _ _ (All-join _ _ (little_endian-IsBytes 4 s.a) (little_endian-IsBytes 4 s.b))
        (little_endian-IsBytes 4 s.c))
      (little_endian-IsBytes 4 s.d),
  unfold little_endian in refl,
)

pub md5-IsBytes : (text : Bytes) → All (λ b. b < 256) (md5 text) × (length (md5 text) ≡ 16)
unfolding md5
md5-IsBytes text = digest-IsBytes _
