-- ===== src/Common/Padding.antt =====
-- The paddings of a text to whole blocks: PKCS5Padding and PKCS5Trimming of common/common.go, and
-- pkcs7Pad of core/aec.go.
pub mod Roundtrip
use report_api.Prelude.{
  ℕ, zero, suc, ◌-◌, ◌%◌, Option, none, some, List, [], ◌∷◌, ◌++◌, length, take, ltb, if◌then◌else◌,
}
use report_api.Prelude.Int.{ℤ, pos, negsuc}
use report_api.Go.Result.{
  Result, ok, err, panic, errorf, index_out_of_range, slice_bounds, divide_by_zero,
}
use report_api.Go.Text.{Bytes}

-- `bytes.Repeat([]byte{b}, n)`.
unfoldable pub repeat : ℕ → ℕ → Bytes
repeat b zero = []
repeat b (suc n) = b ∷ repeat b n

-- `padding := blockSize - len(text)%blockSize`.
unfoldable pub pad_length : Bytes → ℕ → ℕ
pad_length text block = block - length text % block

unfoldable pub padded : Bytes → ℕ → Bytes
unfolding repeat pad_length
padded text block = text ++ repeat (pad_length text block % 256) (pad_length text block)

-- A block size is not negative: it is that of a cipher.
unfoldable pub pkcs5_padding : Bytes → ℕ → Result Bytes
unfolding padded
pkcs5_padding text zero = panic divide_by_zero
pkcs5_padding text (suc block) = ok (padded text (suc block))

unfoldable pub last_byte : Bytes → Option ℕ
last_byte [] = none
last_byte (b ∷ []) = some b
last_byte (b ∷ c ∷ text) = last_byte (c ∷ text)

-- `text[:len(text)-padding]`, which panics below 0.
unfoldable pub cut : Bytes → ℕ → Result Bytes
cut text padding =
    if ltb (length text) padding then panic slice_bounds else ok (take (length text - padding) text)

unfoldable pub pkcs5_trimming : Bytes → Result Bytes
unfolding last_byte cut
pkcs5_trimming text = elim (last_byte text) [
  | none ↦ panic index_out_of_range
  | some padding ↦ cut text padding
]

unfoldable pub pkcs7_pad : Bytes → ℤ → Result Bytes
unfolding padded
pkcs7_pad text (negsuc n) = err (errorf "invalid blocksize")
pkcs7_pad text (pos zero) = err (errorf "invalid blocksize")
pkcs7_pad [] (pos (suc block)) = err (errorf "invalid data")
pkcs7_pad (b ∷ text) (pos (suc block)) = ok (padded (b ∷ text) (suc block))
