-- ===== src/Common/Padding/Roundtrip.antt =====
-- Padding and trimming undo one another, and padded texts have whole blocks.
use native.Mathlib.Nat.{mod-lt, mod_self, mod-add-mod, mod-eq_of_lt}
use report_api.Prelude.{
  ℕ, zero, suc, false, ◌+◌, ◌-◌, ◌%◌, ◌<◌, ◌≤◌, ◌≡◌, refl, sym, ap, ◌∙◌, some, [], ◌∷◌, ◌++◌,
  length, length-append, take-append, ltb, arith,
}
use report_api.Prelude.Int.{pos}
use report_api.Go.Result.{ok, ◌>>=◌}
use report_api.Go.Text.{Bytes}
use report_api.Common.Padding.{
  repeat, pad_length, padded, pkcs5_padding, last_byte, cut, pkcs5_trimming, pkcs7_pad,
}

length-repeat : (b n : ℕ) → length (repeat b n) ≡ n
unfolding repeat
length-repeat b zero = refl
length-repeat b (suc n) = omega (arith, length-repeat b n)

last_byte-cons : (b c : ℕ) (text : Bytes) → last_byte text ≡ some c → last_byte (b ∷ text) ≡ some c
unfolding last_byte
last_byte-cons b c [] h = cc
last_byte-cons b c (d ∷ text) h = h

last_byte-repeat : (text : Bytes) (b n : ℕ) → last_byte (text ++ repeat b (suc n)) ≡ some b
unfolding repeat last_byte
last_byte-repeat [] b zero = refl
last_byte-repeat [] b (suc n) = last_byte-repeat [] b n
last_byte-repeat (c ∷ text) b n =
    last_byte-cons c b (text ++ repeat b (suc n)) (last_byte-repeat text b n)

last_byte-positive : (text : Bytes) (b n : ℕ) → 0 < n → last_byte (text ++ repeat b n) ≡ some b
last_byte-positive text b zero h = absurd (omega arith)
last_byte-positive text b (suc n) h = last_byte-repeat text b n

ltb-≤ : (n m : ℕ) → n ≤ m → ltb m n ≡ false
ltb-≤ n m h = ground arith

cut-append : (text more : Bytes) (n : ℕ) → length more ≡ n → cut (text ++ more) n ≡ ok text
unfolding cut
cut-append text more n e =
    let whole : length (text ++ more) ≡ length text + n =
      length-append text more ∙ ap (λ k. length text + k) e in
    let fits : ltb (length text + n) n ≡ false = ltb-≤ n (length text + n) (omega arith) in
    let rest : length text + n - n ≡ length text = omega arith in
    rw (whole, fits, rest, take-append (length text) text more refl)

pad_length-positive : (text : Bytes) (block : ℕ) → 0 < pad_length text (suc block)
unfolding pad_length
pad_length-positive text block =
    let rest : length text % suc block < suc block = mod-lt (length text) (omega arith) in
    omega (arith, rest)

pad_length-bounded : (text : Bytes) (block : ℕ) → pad_length text (suc block) ≤ suc block
unfolding pad_length
pad_length-bounded text block = omega arith

-- Trimming gives back any text that was padded to blocks of 1 to 255 bytes.
pub pkcs5_trimming-pkcs5_padding :
    (text : Bytes) (block : ℕ)
    → 0 < block
    → block < 256
    → (pkcs5_padding text block >>= pkcs5_trimming) ≡ ok text
unfolding pkcs5_padding pkcs5_trimming padded
pkcs5_trimming-pkcs5_padding text zero l h = absurd (omega arith)
pkcs5_trimming-pkcs5_padding text (suc block) l h =
    let n = pad_length text (suc block) in
    let small : n % 256 ≡ n = mod-eq_of_lt (omega (arith, pad_length-bounded text block, h)) in
    rw (last_byte-positive text (n % 256) n (pad_length-positive text block), pkcs5_trimming, small)
      (cut-append text (repeat n n) n (length-repeat n n))

-- Padded to blocks of at least one byte, a text has whole blocks, and it is longer than before by at
-- most one block.
pub pkcs5_padding-blocks :
    (text : Bytes) (block : ℕ)
    → 0 < block
    → (out : Bytes) × (pkcs5_padding text block ≡ ok out)
      × (length out % block ≡ 0)
      × (length text < length out)
      × (length out ≤ length text + block)
unfolding pkcs5_padding padded pad_length
pkcs5_padding-blocks text zero l = absurd (omega arith)
pkcs5_padding-blocks text (suc block) l =
    let n = pad_length text (suc block) in
    let whole : length (text ++ repeat (n % 256) n) ≡ length text + n =
      length-append text _ ∙ ap (λ k. length text + k) (length-repeat _ n) in
    let rest : length text % suc block < suc block = mod-lt (length text) (omega arith) in
    let filled : length text % suc block + n ≡ suc block = omega (arith, rest) in
    let even =
      sym (mod-add-mod (length text) (suc block) n)
      ∙ ap (λ k. k % suc block) filled
      ∙ mod_self (suc block) in
    (
      _,
      refl,
      ap (λ k. k % suc block) whole ∙ even,
      omega (arith, whole, rest),
      omega (arith, whole),
    )

-- Where `pkcs7Pad` returns no error, it pads as `PKCS5Padding` does, and the text is not empty.
pub pkcs7_pad-pkcs5_padding :
    (text : Bytes) (block : ℕ) (out : Bytes)
    → pkcs7_pad text (pos block) ≡ ok out
    → (pkcs5_padding text block ≡ ok out) × (0 < length text)
unfolding pkcs7_pad pkcs5_padding
pkcs7_pad-pkcs5_padding text zero out h = cc
pkcs7_pad-pkcs5_padding [] (suc block) out h = cc
pkcs7_pad-pkcs5_padding (b ∷ text) (suc block) out h = (h, omega arith)
