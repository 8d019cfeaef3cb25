-- ===== src/Examples/Clients.antt =====
-- The HTTP client on small replies, and the ciphers and ids on short texts.
use report_api.Prelude.{◌≡◌, ◌≢◌, refl, Option, none, some, [], ◌∷◌, length, false, arith}
use report_api.Go.Result.{ok, Error}
use report_api.Go.Returns.{Returns, returned}
use report_api.Go.Text.{Str, Bytes, codes, str_eq}
use report_api.Go.Text.Split.{is_empty}
use report_api.Go.Hex.{to_upper}
use report_api.Go.Hex.Decode.{to_lower, lower, from_hex}
use report_api.Common.Padding.{pkcs5_trimming}
use report_api.Common.Aes.{aes_encode_str, aes_decode_str, blockwise, encrypt_aes128_ecb}
use report_api.Common.Aes.Roundtrip.{aes_decode_str-aes_encode_str}
use report_api.Common.Aes.Ecb.{encrypt_aes128_ecb-trimming}
use report_api.Common.Ids.{is_digest, all_digits}
use report_api.Server.Http.{
  Reads, eof, read_end, read_all_optimized, read_from, Request, Response, Callback, bytes,
  http_post, post_request, body_of, post_reply, called_after_read, called,
}
use report_api.Server.Http.Delivered.{IsDelivered, http_post-IsDelivered}
use report_api.Server.Http.Fast.{
  FastResponse, Quiet, is_nothing, fast_method, fast_request, fast_http, fast_reply, fast_body,
  gzip_decode, unpacked, called_with, fast_http-Quiet,
}

-- A cipher that changes nothing.
abbrev cbc : Bytes → Bytes → Bytes → Bytes
cbc key iv content = content

abbrev accepted : Bytes → Option Error
accepted key = none

aes_decode_str-aes_encode_str_example :
    (crypt : Bytes) × (aes_encode_str accepted cbc (codes "Hello") (codes "key") ≡ ok crypt)
    × (aes_decode_str accepted cbc crypt (codes "key") ≡ ok (codes "Hello"))
    × (aes_decode_str accepted cbc (to_upper crypt) (codes "key") ≡ ok (codes "Hello"))
aes_decode_str-aes_encode_str_example =
    aes_decode_str-aes_encode_str accepted cbc cbc (codes "Hello") (codes "key") (ground arith) refl
      (λ content h whole. refl) (λ content. refl) (λ content h. h)

abbrev sixteen : Bytes
sixteen = codes "0123456789abcdef"

abbrev decoded_key : Bytes → Returns Bytes
decoded_key text = returned sixteen

abbrev block_crypt : Bytes → Bytes → Bytes
block_crypt key block = block

encrypt_aes128_ecb-trimming_example :
    (crypted : Bytes) × (encrypt_aes128_ecb accepted decoded_key
        (λ text. text)
        block_crypt
        (codes "Hello")
        (codes "a2V5")
      ≡ ok crypted)
    × (pkcs5_trimming (blockwise (block_crypt sixteen) (length crypted) crypted)
        ≡ ok (codes "Hello"))
encrypt_aes128_ecb-trimming_example =
    encrypt_aes128_ecb-trimming accepted decoded_key (λ text. text) block_crypt block_crypt
      (codes "Hello") (codes "a2V5") sixteen refl refl refl (omega arith) (ground arith)
      (λ block h l. refl) (λ block h l. l)

not_digest : is_digest (to_lower (codes "IMEI-1")) ≡ false
unfolding is_digest all_digits to_lower lower from_hex
not_digest = refl

abbrev fine_url : Str → Option Error
fine_url url = none

abbrev send : Request → Returns Response
send request =
    returned record { status_code = 200; content_encoding = []; body = (codes "{}", some eof) ∷ [] }

abbrev taken_call : Callback
taken_call content = none

posted :
    http_post fine_url send (λ b. b) (codes "u") (bytes []) [] (some taken_call)
    ≡ some (ok record { error = none; calls = codes "{}" ∷ [] })
unfolding http_post post_reply called_after_read called read_all_optimized read_from read_end
posted = refl

http_post-IsDelivered_example :
    (resp : Response) × (codes "u" ≢ [])
    × (send (post_request (codes "u") [] (body_of (λ b. b) (bytes []))) ≡ returned resp)
    × IsDelivered taken_call resp.body (codes "{}" ∷ [])
http_post-IsDelivered_example =
    http_post-IsDelivered fine_url send (λ b. b) (codes "u") (bytes []) [] taken_call
      (codes "{}" ∷ []) posted

abbrev fast_send : Request → Returns FastResponse
fast_send request =
    returned record { status_code = 200; content_encoding = codes "GZip"; body = codes "x" }

abbrev gzip_reader : Bytes → Returns Reads
gzip_reader content = returned ((codes "plain", some eof) ∷ [])

something : is_nothing [] (codes "u") (codes "GET") ≡ false
unfolding is_nothing is_empty fast_method str_eq
something = refl

fast_sent :
    fast_http gzip_reader fast_send [] (codes "u") (codes "json") (codes "GET") (some taken_call)
    ≡ some (ok record { error = none; calls = codes "plain" ∷ [] })
unfolding fast_http is_nothing is_empty fast_method str_eq fast_reply called_with fast_body
    gzip_decode unpacked to_lower lower called read_all_optimized read_from read_end
fast_sent = refl

fast_http-Quiet_example :
    Quiet gzip_reader
      (fast_send (fast_request [] (codes "u") (codes "json") (codes "GET")))
      taken_call
      (codes "plain" ∷ [])
fast_http-Quiet_example =
    fast_http-Quiet gzip_reader fast_send [] (codes "u") (codes "json") (codes "GET") taken_call
      (codes "plain" ∷ []) something fast_sent
