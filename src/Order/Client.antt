-- ===== src/Order/Client.antt =====
-- `jdHttpGet` of service/jd_order.go: one request, and the function that reads the body of its reply.
use report_api.Prelude.{[], ◌∷◌, ◌++◌}
use report_api.Go.Returns.{Returns, ◌>>=◌, wrap_error}
use report_api.Go.Text.{Bytes}
use report_api.Callback.Http.{Log}

-- What a server replies to a request, by the requests that were sent before: a body, or the error of
-- `client.Do` or of reading the body.
abbrev pub Server : Type 0
Server = Log → Bytes → Returns Bytes

-- The request's URL is well formed, so `http.NewRequest` returns no error.
unfoldable pub jd_http_get :
    {A : Type 0} → Server → Bytes → (Bytes → Returns A) → Log → Returns A × Log
jd_http_get server url resp_exec log = (
  (do content ← wrap_error "request failed" (server log url); resp_exec content),
  log ++ url ∷ [],
)
