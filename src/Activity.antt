-- ===== src/Activity.antt =====
-- service/taobao_activity.go: one query of the activity report.
pub mod ExtInfo
pub mod Order
pub mod Batch
pub mod Handler
use report_api.Prelude.{ℕ, Bool, List, [], ◌∷◌, ◌++◌, if◌then◌else◌}
use report_api.Prelude.Int.{ℤ}
use report_api.Go.Returns.{Returns, ◌>>=◌, wrap_error}
use report_api.Go.Text.{Str, Bytes, codes, utf8, str_eq}
use report_api.Go.Url.{Values, add, encode}
use report_api.Callback.Http.{Log}
use report_api.Sign.{Params, generate_sign}

-- `TaobaoActivityRequest`.
pub record ActivityRequest : Type 0 where
  pub event_id : Str
  pub biz_date : Str
  pub page_no : ℤ
  pub query_type : ℤ
  pub page_size : ℤ
  pub pid : Str

-- `VegasCpaReportDTO`.
pub record Report : Type 0 where
  pub union_30d_lx_uv : ℤ
  pub reward_amount : Str
  pub relation_id : ℤ
  pub biz_date : Str
  pub pid : Str
  pub query_type : ℤ
  pub ext_info : Str

-- `TaobaoActivityResponse`.
pub record Response : Type 0 where
  pub request_id : Str
  pub reports : List Report

-- What the query relies on: the configuration's key and secret, the local clock in the format
-- "2006-01-02 15:04:05", `fmt.Sprintf("%d", n)`, `http.Get` with what `io.ReadAll` makes of the reply's
-- body, and `json.Unmarshal`.
pub record Service : Type 0 where
  pub app_key : Str
  pub app_secret : Str
  pub timestamp : Log → Str
  pub decimal : ℤ → Str
  pub http_get : Log → Bytes → Returns (Returns Bytes)
  pub unmarshal : Bytes → Returns Response

-- The parameters without the signature; the map has no order of its own.
unfoldable pub activity_params : (ℤ → Str) → Str → Str → ActivityRequest → Params
unfolding str_eq
activity_params decimal app_key timestamp req =
    (codes "method", codes "taobao.tbk.dg.cpa.activity.report")
    ∷ (codes "app_key", app_key)
    ∷ (codes "timestamp", timestamp)
    ∷ (codes "format", codes "json")
    ∷ (codes "v", codes "2.0")
    ∷ (codes "sign_method", codes "md5")
    ∷ (codes "partner_id", codes "top-apitools")
    ∷ (codes "event_id", req.event_id)
    ∷ (codes "biz_date", req.biz_date)
    ∷ (codes "query_type", decimal req.query_type)
    ∷ (codes "page_no", decimal req.page_no)
    ∷ (codes "page_size", decimal req.page_size)
    ∷ (if str_eq req.pid [] then [] else (codes "pid", req.pid) ∷ [])

-- The loop of `buildURL` over the map.
unfoldable pub add_all : Values → List (Str × Bytes) → Values
unfolding add
add_all values [] = values
add_all values ((k, v) ∷ params) = add_all (add values k v) params

unfoldable pub build_url : Bytes → List (Str × Bytes) → Bytes
unfolding add_all encode
build_url base params = base ++ b'?' ∷ encode (add_all [] params)

-- The values as the bytes that Go's strings are.
unfoldable pub in_bytes : Params → List (Str × Bytes)
unfolding utf8
in_bytes [] = []
in_bytes ((k, v) ∷ params) = (k, utf8 v) ∷ in_bytes params

-- The map has the signature once it is computed from the others.
unfoldable pub activity_url : Params → Str → Bytes
unfolding in_bytes build_url generate_sign
activity_url params secret =
    build_url (codes "http://gw.api.taobao.com/router/rest")
      (in_bytes params ++ (codes "sign", generate_sign params secret) ∷ [])

unfoldable pub call_taobao_activity_api : Service → ActivityRequest → Log → Returns Response × Log
unfolding activity_params activity_url
call_taobao_activity_api taobao req log =
    let params = activity_params taobao.decimal taobao.app_key (taobao.timestamp log) req in
    let url = activity_url params taobao.app_secret in
    (
      (do
        body ← wrap_error "HTTP request failed" (taobao.http_get log url)
        content ← wrap_error "failed to read response" body
        wrap_error "failed to parse response" (taobao.unmarshal content)),
      log ++ url ∷ [],
    )
