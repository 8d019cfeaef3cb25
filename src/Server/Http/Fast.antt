-- ===== src/Server/Http/Fast.antt =====
-- Fast_Http and GzipDecode of core/httpServer.go.
use report_api.Prelude.{
  ◌≡◌, refl, ◌∙◌, Bool-cases, inl, inr, ℕ, Bool, true, false, Option, none, some, List, [], ◌∷◌,
  ◌==◌, ◌&&◌, ◌||◌, if◌then◌else◌,
}
use report_api.Go.Result.{Result, ok, Error, wrapf}
use report_api.Go.Returns.{Returns, failed, returned}
use report_api.Go.Text.{Str, Bytes, codes, str_eq}
use report_api.Go.Text.Split.{is_empty}
use report_api.Go.Hex.Decode.{to_lower}
use report_api.Server.Http.Delivered.{
  IsWholeBody, IsBrokenBody, read_all_optimized-IsWholeBody, read_all_optimized-IsBrokenBody,
}
use report_api.Server.Http.{Reads, read_all_optimized, Request, Sent, Callback, not_called, called}

-- A reply whose body was read by the client.
pub record FastResponse : Type 0 where
  pub status_code : ℕ
  pub content_encoding : Str
  pub body : Bytes

unfoldable pub fast_method : Str → Str
unfolding str_eq
fast_method http_method = if str_eq http_method (codes "GET") then codes "GET" else codes "POST"

unfoldable pub content_headers : Str → List (Str × Str)
unfolding str_eq
content_headers content_type =
    if str_eq content_type (codes "json")
    then (codes "Content-Type", codes "application/json; charset=UTF-8")
      ∷ (codes "Accept", codes "application/json; charset=UTF-8")
      ∷ []
    else if str_eq content_type (codes "protobuf")
    then (codes "Content-Type", codes "application/x-protobuf; charset=UTF-8") ∷ []
    else if str_eq content_type (codes "protobuf2")
    then (codes "Content-Type", codes "application/octet-stream; charset=UTF-8") ∷ []
    else (codes "Content-Type", codes "application/x-www-form-urlencoded") ∷ []

-- Nothing is sent without a URL, nor a POST without a body.
unfoldable pub is_nothing : Str → Str → Str → Bool
unfolding is_empty fast_method
is_nothing body_string sendurl http_method =
    is_empty sendurl || (is_empty body_string && str_eq (fast_method http_method) (codes "POST"))

unfoldable pub fast_request : Str → Str → Str → Str → Request
unfolding content_headers fast_method
fast_request body_string sendurl content_type http_method = record {
  method = fast_method http_method;
  url = sendurl;
  headers = content_headers content_type;
  body = body_string;
}

-- `body, _ = GzipDecode(…)`: with an error there is no body.
unfoldable pub unpacked : Option (Returns Bytes) → Option Bytes
unpacked none = none
unpacked (some (failed e)) = some []
unpacked (some (returned body)) = some body

unfoldable pub called_with : Option Callback → Option Bytes → Option (Result Sent)
unfolding called
called_with call none = none
called_with call (some body) = some (called call body)

-- `gzip_reader` is gzip.NewReader.
module _ (gzip_reader : Bytes → Returns Reads) where
  unfoldable pub gzip_decode : Bytes → Option (Returns Bytes)
  unfolding read_all_optimized
  gzip_decode content = elim (gzip_reader content) [
    | failed e ↦ some (failed e)
    | returned reads ↦ read_all_optimized reads
  ]

  unfoldable pub fast_body : FastResponse → Option Bytes
  unfolding gzip_decode unpacked to_lower
  fast_body resp =
      if str_eq (to_lower resp.content_encoding) (codes "gzip")
      then unpacked (gzip_decode resp.body)
      else some resp.body

  unfoldable pub fast_reply : Option Callback → Returns FastResponse → Option (Result Sent)
  unfolding called_with fast_body
  fast_reply call (failed e) =
      not_called (some (wrapf "[ssp_global Fast_Http fastClient.Do err]" e))
  fast_reply call (returned resp) =
      if resp.status_code == 200 then called_with call (fast_body resp) else not_called none

  -- `send` is the `Do` of the client.
  unfoldable pub fast_http :
      (Request → Returns FastResponse)
      → Str
      → Str
      → Str
      → Str
      → Option Callback
      → Option (Result Sent)
  unfolding fast_reply fast_request is_nothing
  fast_http send body_string sendurl content_type http_method response_call =
      if is_nothing body_string sendurl http_method
      then not_called none
      else fast_reply response_call
          (send (fast_request body_string sendurl content_type http_method))

-- The body that is handed over: the body itself, or where it is gzip, the whole of what the reads of the
-- unpacking give. Where unpacking fails, at its start or later, it is empty.
pub data IsUnpacked (gzip_reader : Bytes → Returns Reads) (resp : FastResponse) (body : Bytes)
    : Type 0 where
  plain :
      str_eq (to_lower resp.content_encoding) (codes "gzip") ≡ false
      → body ≡ resp.body
      → IsUnpacked gzip_reader resp body
  whole :
      (reads : Reads)
      → str_eq (to_lower resp.content_encoding) (codes "gzip") ≡ true
      → gzip_reader resp.body ≡ returned reads
      → IsWholeBody reads body
      → IsUnpacked gzip_reader resp body
  no_gzip :
      (e : Error)
      → str_eq (to_lower resp.content_encoding) (codes "gzip") ≡ true
      → gzip_reader resp.body ≡ failed e
      → body ≡ []
      → IsUnpacked gzip_reader resp body
  cut_short :
      (reads : Reads) (e : Error)
      → str_eq (to_lower resp.content_encoding) (codes "gzip") ≡ true
      → gzip_reader resp.body ≡ returned reads
      → IsBrokenBody reads e
      → body ≡ []
      → IsUnpacked gzip_reader resp body

-- What happened where no error was returned.
pub data Quiet (gzip_reader : Bytes → Returns Reads) (reply : Returns FastResponse)
    (call : Callback) (calls : List Bytes) : Type 0 where
  other_status :
      (resp : FastResponse)
      → reply ≡ returned resp
      → (resp.status_code == 200) ≡ false
      → calls ≡ []
      → Quiet gzip_reader reply call calls
  taken :
      (resp : FastResponse) (body : Bytes)
      → reply ≡ returned resp
      → (resp.status_code == 200) ≡ true
      → IsUnpacked gzip_reader resp body
      → calls ≡ body ∷ []
      → call body ≡ none
      → Quiet gzip_reader reply call calls

abbrev quiet_result : List Bytes → Option (Result Sent)
quiet_result calls = some (ok record { error = none; calls = calls })

called_with-taken :
    (call : Callback) (body : Option Bytes) (calls : List Bytes)
    → called_with (some call) body ≡ quiet_result calls
    → (content : Bytes) × (body ≡ some content) × (calls ≡ content ∷ []) × (call content ≡ none)
unfolding called_with called
called_with-taken call none calls h = cc
called_with-taken call (some content) calls h = (content, refl, cc, cc)

unpacked-IsUnpacked :
    (gzip_reader : Bytes → Returns Reads) (resp : FastResponse) (body : Bytes) (reads : Reads)
    (read : Option (Returns Bytes))
    → str_eq (to_lower resp.content_encoding) (codes "gzip") ≡ true
    → gzip_reader resp.body ≡ returned reads
    → read_all_optimized reads ≡ read
    → unpacked read ≡ some body
    → IsUnpacked gzip_reader resp body
unfolding unpacked
unpacked-IsUnpacked gzip_reader resp body reads none g r e h = cc
unpacked-IsUnpacked gzip_reader resp body reads (some (failed x)) g r e h =
    cut_short reads x g r (read_all_optimized-IsBrokenBody reads x e) cc
unpacked-IsUnpacked gzip_reader resp body reads (some (returned content)) g r e h =
    whole reads g r (read_all_optimized-IsWholeBody reads body (e ∙ returned_same h))
  where
    returned_same :
        some content ≡ some body
        → Path (Option (Returns Bytes)) (some (returned content)) (some (returned body))
    returned_same h = cc

gzip_decode-IsUnpacked :
    (gzip_reader : Bytes → Returns Reads) (resp : FastResponse) (body : Bytes)
    (opened : Returns Reads)
    → str_eq (to_lower resp.content_encoding) (codes "gzip") ≡ true
    → gzip_reader resp.body ≡ opened
    → unpacked (gzip_decode gzip_reader resp.body) ≡ some body
    → IsUnpacked gzip_reader resp body
unfolding unpacked gzip_decode
gzip_decode-IsUnpacked gzip_reader resp body (failed e) g r h =
    no_gzip e g r (empty_same (rw (gzip_decode, r) at h))
  where
    empty_same : some [] ≡ some body → body ≡ []
    empty_same h = cc
gzip_decode-IsUnpacked gzip_reader resp body (returned reads) g r h =
    unpacked-IsUnpacked gzip_reader resp body reads (read_all_optimized reads) g r refl
      (rw (gzip_decode, r) at h)

fast_body-IsUnpacked :
    (gzip_reader : Bytes → Returns Reads) (resp : FastResponse) (body : Bytes)
    → fast_body gzip_reader resp ≡ some body
    → IsUnpacked gzip_reader resp body
unfolding fast_body
fast_body-IsUnpacked gzip_reader resp body h =
    elim (Bool-cases (str_eq (to_lower resp.content_encoding) (codes "gzip"))) [
      | inl g ↦
          gzip_decode-IsUnpacked gzip_reader resp body (gzip_reader resp.body) g refl
            (rw (fast_body, g) at h)
      | inr g ↦ plain g (same_body (rw (fast_body, g) at h))
    ]
  where
    same_body : some resp.body ≡ some body → body ≡ resp.body
    same_body h = cc

fast_reply-Quiet :
    (gzip_reader : Bytes → Returns Reads) (call : Callback) (reply : Returns FastResponse)
    (calls : List Bytes)
    → fast_reply gzip_reader (some call) reply ≡ quiet_result calls
    → Quiet gzip_reader reply call calls
unfolding fast_reply
fast_reply-Quiet gzip_reader call (failed e) calls h = cc
fast_reply-Quiet gzip_reader call (returned resp) calls h =
    elim (Bool-cases (resp.status_code == 200)) [
      | inr other ↦ other_status resp refl other (silent (rw other at h))
      | inl fine ↦
          let (content, body, once, accepted) =
            called_with-taken call (fast_body gzip_reader resp) calls (rw fine at h) in
          taken resp content refl fine (fast_body-IsUnpacked gzip_reader resp content body) once
            accepted
    ]
  where
    silent : not_called none ≡ quiet_result calls → calls ≡ []
    silent h = cc

-- Where Fast_Http with a callback returns no error although there was something to send, the request
-- was answered, and either the status is not 200 and the callback was not called, or the callback took, in
-- its only call, the body, or where it is gzip the whole of what unpacking it gives, or nothing where
-- unpacking fails.
pub fast_http-Quiet :
    (gzip_reader : Bytes → Returns Reads) (send : Request → Returns FastResponse)
    (body_string sendurl content_type http_method : Str) (call : Callback) (calls : List Bytes)
    → is_nothing body_string sendurl http_method ≡ false
    → fast_http gzip_reader send body_string sendurl content_type http_method (some call)
      ≡ some (ok record { error = none; calls = calls })
    → Quiet gzip_reader
        (send (fast_request body_string sendurl content_type http_method))
        call
        calls
unfolding fast_http
fast_http-Quiet gzip_reader send body_string sendurl content_type http_method call calls n h =
    fast_reply-Quiet gzip_reader call _ calls (rw (fast_http, n) at h)
