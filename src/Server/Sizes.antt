-- ===== src/Server/Sizes.antt =====
-- How large a request is for the metrics: calcRequestSize of common/ginporm/middleware.go, and
-- sendRequestSize and estimateRequestSize of core/httpServer.go.
use mathlib.Core.List.{Permᴰ}
use report_api.Prelude.{
  ℕ, suc, ◌+◌, ◌≡◌, refl, ap, ◌∙◌, Option, none, some, List, [], ◌∷◌, ◌++◌, length, length-append,
  arith,
}
use report_api.Go.Text.{Str, Bytes, codes}

-- A request of net/http, with its URL as it is printed. The content length is `none` where the field
-- is -1.
pub record HttpRequest : Type 0 where
  pub url : Option Str
  pub method : Str
  pub proto : Str
  pub header : List (Str × List Str)
  pub host : Str
  pub content_length : Option ℕ

unfoldable pub url_size : Option Str → ℕ
url_size none = 0
url_size (some url) = length url

unfoldable pub add_values : ℕ → List Str → ℕ
add_values size [] = size
add_values size (value ∷ values) = add_values (size + length value) values

unfoldable pub add_header : ℕ → List (Str × List Str) → ℕ
unfolding add_values
add_header size [] = size
add_header size ((name, values) ∷ header) =
    add_header (add_values (size + length name) values) header

unfoldable pub add_content : ℕ → Option ℕ → ℕ
add_content size none = size
add_content size (some content_length) = size + content_length

unfoldable pub calc_request_size : HttpRequest → ℕ
unfolding url_size add_header add_content
calc_request_size r =
    add_content
      (add_header (url_size r.url + length r.method + length r.proto) r.header + length r.host)
      r.content_length

-- The same statements once more.
unfoldable pub send_request_size : HttpRequest → ℕ
unfolding url_size add_header add_content
send_request_size r =
    add_content
      (add_header (url_size r.url + length r.method + length r.proto) r.header + length r.host)
      r.content_length

-- A request of fasthttp.
pub record FastRequest : Type 0 where
  pub method : Bytes
  pub request_uri : Bytes
  pub header : List (Bytes × Bytes)
  pub body : Bytes

unfoldable pub add_fast_header : ℕ → List (Bytes × Bytes) → ℕ
add_fast_header headers_size [] = headers_size
add_fast_header headers_size ((key, value) ∷ header) =
    add_fast_header
      (headers_size + (length key + length (codes ": ") + length value + length (codes "\r\n")))
      header

unfoldable pub estimate_request_size : FastRequest → ℕ
unfolding add_fast_header
estimate_request_size req =
    (length req.method + length req.request_uri + length (codes " HTTP/1.1\r\n"))
    + add_fast_header 0 req.header
    + length (codes "\r\n")
    + length req.body

-- The size of one field of a header.
field_size : Str × List Str → ℕ
field_size (name, values) = add_values (length name) values

sizes_of : List (Str × List Str) → ℕ
unfolding field_size
sizes_of [] = 0
sizes_of (field ∷ header) = field_size field + sizes_of header

add_values-sum :
    (size : ℕ) (n : ℕ) (values : List Str)
    → add_values (size + n) values ≡ size + add_values n values
unfolding add_values
add_values-sum size n [] = refl
add_values-sum size n (value ∷ values) =
    ap (λ k. add_values k values) (omega arith) ∙ add_values-sum size (n + length value) values

add_header-sum :
    (size : ℕ) (header : List (Str × List Str)) → add_header size header ≡ size + sizes_of header
unfolding add_header sizes_of field_size
add_header-sum size [] = omega arith
add_header-sum size ((name, values) ∷ header) =
    rw
      (
        add_header-sum (add_values (size + length name) values) header,
        add_values-sum size (length name) values,
      )
      (omega arith)

sizes_of-Permᴰ : {h h' : List (Str × List Str)} → Permᴰ h h' → sizes_of h ≡ sizes_of h'
unfolding sizes_of
sizes_of-Permᴰ Permᴰ.nil = refl
sizes_of-Permᴰ (Permᴰ.cons {b} e p) = rw (e, sizes_of-Permᴰ p)
sizes_of-Permᴰ (Permᴰ.swap {a} {b} e f) = rw (← e, ← f) (omega arith)
sizes_of-Permᴰ (Permᴰ.trans p q) = sizes_of-Permᴰ p ∙ sizes_of-Permᴰ q

-- The size of a request does not depend on the order in which the loop meets the fields of the header,
-- and it is the same in both functions.
pub calc_request_size-Permᴰ :
    (r : HttpRequest) (header : List (Str × List Str))
    → Permᴰ r.header header
    → calc_request_size r ≡ send_request_size (record r { header = header })
unfolding calc_request_size send_request_size
calc_request_size-Permᴰ r header p =
    ap (λ size. add_content (size + length r.host) r.content_length)
      (add_header-sum _ r.header
        ∙ ap (λ n. url_size r.url + length r.method + length r.proto + n) (sizes_of-Permᴰ p)
        ∙ rw (add_header-sum (url_size r.url + length r.method + length r.proto) header))

-- The fields of the header as HTTP/1.1 writes them.
abbrev pub printed_header : List (Bytes × Bytes) → Bytes
printed_header [] = []
printed_header ((key, value) ∷ header) =
    (key ++ (codes ": " ++ (value ++ codes "\r\n"))) ++ printed_header header

-- The request as HTTP/1.1 writes it.
abbrev pub printed : FastRequest → Bytes
printed req =
    (req.method ++ (codes " " ++ (req.request_uri ++ codes " HTTP/1.1\r\n")))
    ++ (printed_header req.header ++ (codes "\r\n" ++ req.body))

length-printed_header :
    (n : ℕ) (header : List (Bytes × Bytes))
    → add_fast_header n header ≡ n + length (printed_header header)
unfolding add_fast_header
length-printed_header n [] = omega arith
length-printed_header n ((key, value) ∷ header) =
    rw
      (
        length-printed_header (n + (length key + 2 + length value + 2)) header,
        length-append (key ++ (codes ": " ++ (value ++ codes "\r\n"))) (printed_header header),
        length-append key (codes ": " ++ (value ++ codes "\r\n")),
        length-append value (codes "\r\n"),
      )
      (omega arith)

-- The estimate is the length of the printed request less one byte, the space before the address.
pub length-printed : (req : FastRequest) → length (printed req) ≡ suc (estimate_request_size req)
unfolding estimate_request_size
length-printed req =
    rw
      (
        length-append (req.method ++ (codes " " ++ (req.request_uri ++ codes " HTTP/1.1\r\n")))
            (printed_header req.header ++ (codes "\r\n" ++ req.body)),
        length-append req.method (codes " " ++ (req.request_uri ++ codes " HTTP/1.1\r\n")),
        length-append req.request_uri (codes " HTTP/1.1\r\n"),
        length-append (printed_header req.header) (codes "\r\n" ++ req.body),
        length-printed_header 0 req.header,
      )
      (omega arith)
