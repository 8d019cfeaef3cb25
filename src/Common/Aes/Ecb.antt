-- ===== src/Common/Aes/Ecb.antt =====
-- What EncryptAES128ECB writes can be decrypted block by block.
use report_api.Prelude.{
  ℕ, zero, suc, ◌+◌, ◌*◌, ◌/◌, ◌%◌, ◌≤◌, ◌<◌, ◌≡◌, refl, All-take, All-drop, Option, none, [], ◌∷◌,
  ◌++◌, take, drop, take-append, drop-append, append-take-drop, length, length-append, length-take,
  ==_iff, arith,
}
use report_api.Prelude.Int.{pos}
use report_api.Go.Result.{ok, Error}
use report_api.Go.Returns.{Returns, returned}
use report_api.Go.Text.{Bytes}
use report_api.Go.Hex.Decode.{IsBytes}
use report_api.Common.Padding.{padded, pkcs5_padding, pkcs5_trimming, pkcs7_pad}
use report_api.Common.Aes.{
  blockwise, pad_result, encrypted_blocks, encrypt_with_key, encrypt_aes128_ecb,
}
use report_api.Common.Aes.Roundtrip.{padded_text}

blockwise-nil : (mode : Bytes → Bytes) (fuel : ℕ) → blockwise mode fuel [] ≡ []
unfolding blockwise
blockwise-nil mode zero = refl
blockwise-nil mode (suc fuel) = refl

blockwise-step :
    (mode : Bytes → Bytes) (fuel : ℕ) (text : Bytes)
    → 0 < length text
    → blockwise mode (suc fuel) text ≡ mode (take 16 text) ++ blockwise mode fuel (drop 16 text)
unfolding blockwise
blockwise-step mode fuel [] h = absurd (omega arith)
blockwise-step mode fuel (b ∷ text) h = refl

length-drop : (n : ℕ) (text : Bytes) → n ≤ length text → length (drop n text) + n ≡ length text
length-drop zero text h = omega arith
length-drop (suc n) [] h = absurd (omega arith)
length-drop (suc n) (b ∷ text) h = omega (arith, length-drop n text (omega arith))

-- The blocks under a function and under one that undoes it.
module _ (encrypt decrypt : Bytes → Bytes)
    (undone : (block : Bytes) → IsBytes block → length block ≡ 16 → decrypt (encrypt block) ≡ block)
    (kept : (block : Bytes) → IsBytes block → length block ≡ 16 → length (encrypt block) ≡ 16) where
  blockwise-undone :
      (n fuel fuel' : ℕ) (text : Bytes)
      → IsBytes text
      → length text ≡ 16 * n
      → n ≤ fuel
      → n ≤ fuel'
      → (blockwise decrypt fuel' (blockwise encrypt fuel text) ≡ text)
        × (length (blockwise encrypt fuel text) ≡ length text)
  blockwise-undone zero fuel fuel' [] h l f g = (
    rw (blockwise-nil encrypt fuel, blockwise-nil decrypt fuel'),
    rw (blockwise-nil encrypt fuel),
  )
  blockwise-undone zero fuel fuel' (b ∷ text) h l f g = absurd (omega (arith, l))
  blockwise-undone (suc n) zero fuel' text h l f g = absurd (omega arith)
  blockwise-undone (suc n) (suc fuel) zero text h l f g = absurd (omega arith)
  blockwise-undone (suc n) (suc fuel) (suc fuel') text h l f g =
      let few : IsBytes (take 16 text) = All-take (λ b. b < 256) 16 text h in
      let block : length (take 16 text) ≡ 16 = omega (arith, length-take 16 text, l) in
      let rest = drop 16 text in
      let rest-l : length rest ≡ 16 * n =
        omega (arith, length-drop 16 text (omega (arith, l)), l) in
      let (text', length') =
        blockwise-undone n fuel fuel' rest (All-drop (λ b. b < 256) 16 text h) rest-l (omega arith)
          (omega arith) in
      let front = encrypt (take 16 text) in
      let front-l : length front ≡ 16 = kept (take 16 text) few block in
      let back = blockwise encrypt fuel rest in
      let step = blockwise-step encrypt fuel text (omega (arith, l)) in
      let whole : length (front ++ back) ≡ length text =
        omega (arith, length-append front back, front-l, length', rest-l, l) in
      (
        rw
            (
              step,
              blockwise-step decrypt fuel' (front ++ back) (omega (arith, whole, l)),
              take-append 16 front back front-l,
              drop-append 16 front back front-l,
              undone (take 16 text) few block,
              text',
            )
            (append-take-drop 16 text),
        rw step whole,
      )

pkcs7_pad-nonempty :
    (text : Bytes) → 0 < length text → pkcs7_pad text (pos 16) ≡ pkcs5_padding text 16
unfolding pkcs7_pad pkcs5_padding
pkcs7_pad-nonempty [] h = absurd (omega arith)
pkcs7_pad-nonempty (b ∷ text) h = refl

module _ (key_error : Bytes → Option Error) (base64_decode : Bytes → Returns Bytes)
    (base64_encode : Bytes → Bytes) (block_encrypt : Bytes → Bytes → Bytes) where
  -- For a text that is not empty and an encoded key of 16 bytes that AES takes, EncryptAES128ECB
  -- returns encoded bytes which, decrypted block by block and trimmed, give the text again, if
  -- decrypting a block undoes encrypting it and encrypting keeps its length.
  pub encrypt_aes128_ecb-trimming :
      (block_decrypt : Bytes → Bytes → Bytes) (input base64key key : Bytes)
      → base64_decode base64key ≡ returned key
      → length key ≡ 16
      → key_error key ≡ none
      → 0 < length input
      → IsBytes input
      → ((block : Bytes)
          → IsBytes block
          → length block ≡ 16
          → block_decrypt key (block_encrypt key block) ≡ block)
      → ((block : Bytes)
          → IsBytes block
          → length block ≡ 16
          → length (block_encrypt key block) ≡ 16)
      → (crypted : Bytes) × (encrypt_aes128_ecb key_error base64_decode base64_encode block_encrypt
            input base64key
          ≡ ok (base64_encode crypted))
        × (pkcs5_trimming (blockwise (block_decrypt key) (length crypted) crypted) ≡ ok input)
  unfolding encrypt_aes128_ecb encrypt_with_key encrypted_blocks pad_result
  encrypt_aes128_ecb-trimming block_decrypt input base64key key decoded l accepted filled h undone
        kept =
      let (content, small, padded, whole, trimmed) = padded_text input h in
      let n = length content / 16 in
      let crypted = blockwise (block_encrypt key) (length content) content in
      let long : length crypted ≡ length content =
        (blockwise-undone (block_encrypt key) (block_decrypt key) undone kept n (length content) n
          content small (omega (arith, whole)) (omega (arith, whole)) (omega arith)).1 in
      let (same, length') =
        blockwise-undone (block_encrypt key) (block_decrypt key) undone kept n (length content)
          (length crypted) content small (omega (arith, whole)) (omega (arith, whole))
          (omega (arith, whole, long)) in
      (
        crypted,
        rw (
          encrypt_aes128_ecb,
          decoded,
          (==_iff (length key) 16).1 l,
          encrypt_with_key,
          accepted,
          pkcs7_pad-nonempty input filled,
          padded,
          pad_result,
          encrypted_blocks,
          (==_iff (length content % 16) 0).1 whole,
        ),
        rw same trimmed,
      )
