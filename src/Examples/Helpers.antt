-- ===== src/Examples/Helpers.antt =====
-- Padding of small texts.
use report_api.Prelude.{◌≡◌, refl, [], ◌∷◌, ◌++◌}
use report_api.Prelude.Int.{pos}
use report_api.Go.Result.{ok}
use report_api.Go.Text.{Bytes, codes}
use report_api.Common.Padding.{repeat, pad_length, padded, pkcs7_pad}

abbrev padded_text : Bytes
padded_text = codes "abcde" ++ 3 ∷ 3 ∷ 3 ∷ []

pkcs7_pad_test : pkcs7_pad (codes "abcde") (pos 8) ≡ ok padded_text
unfolding pkcs7_pad padded repeat pad_length
pkcs7_pad_test = refl
