-- ===== src/Server/Http.antt =====
-- HttpGet, HttpPost and Fast_Http of core/httpServer.go. The metrics that each of them observes are
-- left out. A result `none` is a body whose reads never end.
pub mod Delivered
pub mod Fast
use report_api.Prelude.{
  ℕ, Bool, true, false, String, Option, none, some, List, [], ◌∷◌, ◌++◌, map, ◌==◌, ◌&&◌, ◌||◌,
  if◌then◌else◌,
}
use report_api.Go.Result.{Result, ok, panic, Error, errorf, wrapf, nil_dereference}
use report_api.Go.Returns.{Returns, failed, returned}
use report_api.Go.Text.{Str, Bytes, codes, str_eq}

-- `io.EOF` or another error of a read.
pub data ReadEnd : Type 0 where
  eof : ReadEnd
  broken : Error → ReadEnd

-- What the reads of a body return in turn.
abbrev pub Reads : Type 0
Reads = List (Bytes × Option ReadEnd)

unfoldable pub read_end : ReadEnd → Bytes → Returns Bytes
read_end eof result = returned result
read_end (broken e) result = failed e

-- The loop, with the bytes that were read before.
unfoldable pub read_from : Bytes → Reads → Option (Returns Bytes)
unfolding read_end
read_from result [] = none
read_from result ((chunk, none) ∷ reads) = read_from (result ++ chunk) reads
read_from result ((chunk, some ending) ∷ reads) = some (read_end ending (result ++ chunk))

unfoldable pub read_all_optimized : Reads → Option (Returns Bytes)
unfolding read_from
read_all_optimized reads = read_from [] reads

pub record Request : Type 0 where
  pub method : Str
  pub url : Str
  pub headers : List (Str × Str)
  pub body : Bytes

pub record Response : Type 0 where
  pub status_code : ℕ
  pub content_encoding : Str
  pub body : Reads

-- The error that a function returns, and the contents that its callback was called with.
pub record Sent : Type 0 where
  pub error : Option Error
  pub calls : List Bytes

-- `func(content []byte) error`.
abbrev pub Callback : Type 0
Callback = Bytes → Option Error

abbrev pub not_called : Option Error → Option (Result Sent)
not_called e = some (ok record { error = e; calls = [] })

unfoldable pub called : Option Callback → Bytes → Result Sent
called none content = panic nil_dereference
called (some call) content = ok record { error = call content; calls = content ∷ [] }

unfoldable pub called_after_read : Option Callback → Option (Returns Bytes) → Option (Result Sent)
unfolding called
called_after_read call none = none
called_after_read call (some (failed e)) = not_called (some e)
called_after_read call (some (returned content)) = some (called call content)

unfoldable pub get_reply : Option Callback → Returns Response → Option (Result Sent)
unfolding called_after_read read_all_optimized
get_reply call (failed e) = not_called (some e)
get_reply none (returned resp) = not_called none
get_reply (some call) (returned resp) = called_after_read (some call) (read_all_optimized resp.body)

-- The body is read in any case; its error is returned only where the callback is to be called.
unfoldable pub post_reply : Option Callback → Returns Response → Option (Result Sent)
unfolding called_after_read read_all_optimized
post_reply call (failed e) = not_called (some (wrapf "[urlpath]" e))
post_reply (some call) (returned resp) =
    called_after_read (some call) (read_all_optimized resp.body)
post_reply none (returned resp) = elim (resp.status_code == 200) [
  | false ↦ called_after_read none (read_all_optimized resp.body)
  | true ↦ elim (read_all_optimized resp.body) [ none ↦ none | some read ↦ not_called none ]
]

-- The parameters are bytes, or a value that is marshalled; an error of that is not looked at.
pub data PostParams {ℓ} (V : Type ℓ) : Type ℓ where
  bytes : Bytes → PostParams V
  value : V → PostParams V

unfoldable pub body_of {ℓ} : {V : Type ℓ} → (V → Bytes) → PostParams V → Bytes
body_of marshal (bytes b) = b
body_of marshal (value v) = marshal v

unfoldable pub get_request : Str → Request
get_request urlpath = record { method = codes "GET"; url = urlpath; headers = []; body = [] }

unfoldable pub post_request : Str → List (Str × Str) → Bytes → Request
post_request urlpath handlers body = record {
  method = codes "POST";
  url = urlpath;
  headers = (codes "Content-Type", codes "application/json") ∷ handlers;
  body = body;
}

-- `url_error` is the error of http.NewRequest, and `send` is the `Do` of the client.
module _ (url_error : Str → Option Error) (send : Request → Returns Response) where
  unfoldable pub http_get : Str → Option Callback → Option (Result Sent)
  unfolding get_reply get_request
  http_get urlpath resp_exec = elim (url_error urlpath) [
    | some e ↦ not_called (some (wrapf "[urlpath]" e))
    | none ↦ get_reply resp_exec (send (get_request urlpath))
  ]

  unfoldable pub http_post {ℓ} :
      {V : Type ℓ}
      → (V → Bytes)
      → Str
      → PostParams V
      → List (Str × Str)
      → Option Callback
      → Option (Result Sent)
  unfolding post_reply post_request body_of
  http_post marshal [] params handlers response_call = not_called (some (errorf "urlpath is empty"))
  http_post marshal (c ∷ urlpath) params handlers response_call = elim (url_error (c ∷ urlpath)) [
    | some e ↦ not_called (some (wrapf "[urlpath]" e))
    | none ↦
        post_reply response_call
          (send (post_request (c ∷ urlpath) handlers (body_of marshal params)))
  ]
