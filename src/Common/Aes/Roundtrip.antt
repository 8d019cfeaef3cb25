-- ===== src/Common/Aes/Roundtrip.antt =====
-- What AESEncodeStr writes can be read again.
use report_api.Prelude.{
  ℕ, zero, suc, ◌%◌, ◌<◌, ◌≡◌, subst, All-append, Option, none, length, ==_iff, arith,
}
use report_api.Go.Result.{ok, ok-injective, Error}
use report_api.Go.Text.{Bytes}
use report_api.Go.Hex.{hex, to_upper}
use report_api.Go.Hex.Decode.{IsBytes, decode-hex, to_lower-hex, to_lower-to_upper}
use report_api.Common.Padding.{repeat, pad_length, padded, pkcs5_padding, pkcs5_trimming}
use report_api.Common.Padding.Roundtrip.{pkcs5_trimming-pkcs5_padding, pkcs5_padding-blocks}
use report_api.Common.Aes.{ivspec, crypt_blocks, aes_encode_str, aes_decode_str}

crypt_blocks-whole :
    (mode : Bytes → Bytes) (content : Bytes)
    → length content % 16 ≡ 0
    → crypt_blocks mode content ≡ ok (mode content)
unfolding crypt_blocks
crypt_blocks-whole mode content h = rw ((==_iff (length content % 16) 0).1 h)

repeat-IsBytes : (b n : ℕ) → b < 256 → IsBytes (repeat b n)
unfolding repeat
repeat-IsBytes b zero h = tt
repeat-IsBytes b (suc n) h = (h, repeat-IsBytes b n h)

padding-IsBytes :
    (src content : Bytes) → IsBytes src → pkcs5_padding src 16 ≡ ok content → IsBytes content
unfolding pkcs5_padding padded
padding-IsBytes src content h e =
    subst IsBytes (ok-injective e)
      (All-append (λ b. b < 256) src _ h (repeat-IsBytes _ (pad_length src 16) (omega arith)))

-- A text padded to blocks of 16 bytes, and what trimming makes of it.
pub padded_text :
    (src : Bytes)
    → IsBytes src
    → (content : Bytes) × IsBytes content
      × (pkcs5_padding src 16 ≡ ok content)
      × (length content % 16 ≡ 0)
      × (pkcs5_trimming content ≡ ok src)
padded_text src h =
    let (content, filled, whole, longer, bounded) = pkcs5_padding-blocks src 16 (omega arith) in
    (
      content,
      padding-IsBytes src content h filled,
      filled,
      whole,
      rw filled at (pkcs5_trimming-pkcs5_padding src 16 (omega arith) (omega arith)),
    )

module _ (key_error : Bytes → Option Error)
    (cbc_encrypt cbc_decrypt : Bytes → Bytes → Bytes → Bytes) where
  -- AESDecodeStr under the same key gives back every text that AESEncodeStr encrypted, also where its
  -- digits were put in upper case, if AES takes the key, decrypting whole blocks undoes encrypting
  -- them, and encrypting keeps their length.
  pub aes_decode_str-aes_encode_str :
      (src key : Bytes)
      → IsBytes src
      → key_error key ≡ none
      → ((content : Bytes)
          → IsBytes content
          → length content % 16 ≡ 0
          → cbc_decrypt key ivspec (cbc_encrypt key ivspec content) ≡ content)
      → ((content : Bytes) → length (cbc_encrypt key ivspec content) ≡ length content)
      → ((content : Bytes) → IsBytes content → IsBytes (cbc_encrypt key ivspec content))
      → (crypt : Bytes) × (aes_encode_str key_error cbc_encrypt src key ≡ ok crypt)
        × (aes_decode_str key_error cbc_decrypt crypt key ≡ ok src)
        × (aes_decode_str key_error cbc_decrypt (to_upper crypt) key ≡ ok src)
  unfolding aes_encode_str aes_decode_str
  aes_decode_str-aes_encode_str src key h accepted undone kept written =
      let (content, small, padded, whole, trimmed) = padded_text src h in
      let crypted = cbc_encrypt key ivspec content in
      let whole' : length crypted % 16 ≡ 0 = rw (kept content) whole in
      (
        hex crypted,
        rw (
          aes_encode_str,
          accepted,
          padded,
          crypt_blocks-whole (cbc_encrypt key ivspec) content whole,
        ),
        rw
            (
              aes_decode_str,
              accepted,
              to_lower-hex crypted (written content small),
              decode-hex crypted (written content small),
              crypt_blocks-whole (cbc_decrypt key ivspec) crypted whole',
              undone content small whole,
            )
            trimmed,
        rw
            (
              aes_decode_str,
              accepted,
              to_lower-to_upper crypted (written content small),
              decode-hex crypted (written content small),
              crypt_blocks-whole (cbc_decrypt key ivspec) crypted whole',
              undone content small whole,
            )
            trimmed,
      )
