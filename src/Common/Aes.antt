-- ===== src/Common/Aes.antt =====
-- AESEncodeStr and AESDecodeStr of common/common.go, and EncryptAES128ECB of core/aec.go. AES, its CBC
-- mode and base64 are parameters; a block has 16 bytes.
pub mod Roundtrip
pub mod Ecb
use report_api.Prelude.{
  ℕ, zero, suc, ◌%◌, Bool, true, false, Option, none, some, List, [], ◌∷◌, ◌++◌, take, drop, length,
  ◌==◌, if◌then◌else◌,
}
use report_api.Prelude.Int.{pos}
use report_api.Go.Result.{
  Result, ok, err, panic, Error, errorf, nil_dereference, library_panic, ◌>>=◌,
}
use report_api.Go.Returns.{Returns, failed, returned, to_result}
use report_api.Go.Text.{Bytes, codes}
use report_api.Go.Hex.{hex}
use report_api.Go.Hex.Decode.{decode, to_lower}
use report_api.Common.Padding.{pkcs5_padding, pkcs5_trimming, pkcs7_pad}

abbrev pub ivspec : Bytes
ivspec = codes "0000000000000000"

-- `CryptBlocks` panics where the input does not have whole blocks.
unfoldable pub crypt_blocks : (Bytes → Bytes) → Bytes → Result Bytes
crypt_blocks mode content =
    if length content % 16 == 0 then ok (mode content) else panic library_panic

-- `plaintext, err = pkcs7Pad(plaintext, blockSize)`, where the error is not looked at.
unfoldable pub pad_result : Result Bytes → Result Bytes
pad_result (ok plaintext) = ok plaintext
pad_result (err e) = ok []
pad_result (panic p) = panic p

-- The loop over blocks, on the text that is left. A round takes up to 16 bytes, so its length is
-- fuel enough.
unfoldable pub blockwise : (Bytes → Bytes) → ℕ → Bytes → Bytes
blockwise encrypt zero rest = []
blockwise encrypt (suc fuel) [] = []
blockwise encrypt (suc fuel) (b ∷ rest) =
    encrypt (take 16 (b ∷ rest)) ++ blockwise encrypt fuel (drop 16 (b ∷ rest))

-- `aes.NewCipher`: its error. With a key that is refused, the block is nil.
module _ (key_error : Bytes → Option Error) where
  -- `cbc` takes a key, the first vector and whole blocks.
  module _ (cbc : Bytes → Bytes → Bytes → Bytes) where
    unfoldable pub aes_encode_str : Bytes → Bytes → Result Bytes
    unfolding crypt_blocks
    aes_encode_str src key = elim (key_error key) [
      | some e ↦ panic nil_dereference
      | none ↦
          pkcs5_padding src 16 >>= crypt_blocks (cbc key ivspec) >>= λ crypted. ok (hex crypted)
    ]

    -- A text that is not all digits is only reported: what was read before is decrypted.
    unfoldable pub aes_decode_str : Bytes → Bytes → Result Bytes
    unfolding crypt_blocks
    aes_decode_str crypt key = elim (key_error key) [
      | some e ↦ panic nil_dereference
      | none ↦ crypt_blocks (cbc key ivspec) (decode (to_lower crypt)).0 >>= pkcs5_trimming
    ]

  -- `block_encrypt` takes a key and one block.
  module _ (base64_decode : Bytes → Returns Bytes) (base64_encode : Bytes → Bytes)
      (block_encrypt : Bytes → Bytes → Bytes) where
    unfoldable pub encrypted_blocks : Bytes → Bytes → Result Bytes
    unfolding blockwise
    encrypted_blocks key plaintext =
        if length plaintext % 16 == 0
        then ok (base64_encode (blockwise (block_encrypt key) (length plaintext) plaintext))
        else err (errorf "plaintext is not a multiple of the block size")

    unfoldable pub encrypt_with_key : Bytes → Bytes → Result Bytes
    unfolding encrypted_blocks pad_result
    encrypt_with_key input key = elim (key_error key) [
      | some e ↦ err e
      | none ↦ pad_result (pkcs7_pad input (pos 16)) >>= encrypted_blocks key
    ]

    unfoldable pub encrypt_aes128_ecb : Bytes → Bytes → Result Bytes
    unfolding encrypt_with_key
    encrypt_aes128_ecb input base64key = to_result (base64_decode base64key) >>= λ key.
        if length key == 16
        then encrypt_with_key input key
        else err (errorf "invalid key size: %d bytes")
