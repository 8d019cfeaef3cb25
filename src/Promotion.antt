-- ===== src/Promotion.antt =====
-- service/jd_sh.go: one promotion link of JD.
pub mod Handler
pub mod Batch
pub mod Upload
use report_api.Prelude.{
  ℕ, ◌≡◌, refl, Bool, true, false, Option, none, some, List, [], ◌∷◌, ◌++◌, ◌==◌, if◌then◌else◌,
}
use report_api.Prelude.Int.{ℤ, pos, negsuc, eqb_ℤ}
use report_api.Go.Result.{Error, errorf}
use report_api.Go.Returns.{Returns, failed, returned, ◌>>=◌, wrap_error}
use report_api.Go.Text.{Str, Bytes, codes, utf8, str_eq}
use report_api.Go.Url.{Values, set, encode}
use report_api.Callback.Http.{Log}
use report_api.Order.Client.{Server, jd_http_get}
use report_api.Sign.{Params, generate_jd_sh_sign}

abbrev pub jd_sh_app_key : Str
jd_sh_app_key = codes "5c0a2824512572fba5881e3f3014989c"

abbrev pub jd_sh_app_secret : Str
jd_sh_app_secret = codes "0458ca722df540ac9f4c20bae9c9f848"

-- `JdShPromotionRequest`.
pub record PromotionRequest : Type 0 where
  pub account : Str
  pub task_id : ℤ
  pub material_id : Str
  pub scene_id : ℤ
  pub ext1 : Str
  pub pid : Str
  pub coupon_url : Str
  pub gift_key : Str
  pub channel_id : ℤ

-- The map `getCodeByTaskIdReq`, in which the optional entries may be missing.
pub record InnerReq : Type 0 where
  pub account : Str
  pub material_id : Str
  pub task_id : ℤ
  pub scene_id : ℤ
  pub ext1 : Option Str
  pub pid : Option Str
  pub coupon_url : Option Str
  pub gift_coupon_key : Option Str
  pub channel_id : Option ℤ

-- `JdShPromotionResponse`.
pub record PromotionResponse : Type 0 where
  pub code : Str
  pub get_result : Str

-- `JdShPromotionResult`.
pub record PromotionResult : Type 0 where
  pub code : ℤ
  pub message : Str
  pub click_url : Str
  pub impression_monitor_url : Str
  pub click_monitor_url : Str
  pub app_url : Str

-- The library jsoniter writes and reads JSON, a server replies, and the local clock is shown in the
-- format "2006-01-02 15:04:05.000-0700".
pub record Service : Type 0 where
  pub marshal : InnerReq → Str
  pub unmarshal_response : Bytes → Returns PromotionResponse
  pub unmarshal_result : Str → Returns PromotionResult
  pub server : Server
  pub timestamp : Log → Str

unfoldable pub non_empty : Str → Option Str
non_empty s = if str_eq s [] then none else some s

unfoldable pub inner_req : PromotionRequest → InnerReq
unfolding non_empty
inner_req req = record {
  account = req.account;
  material_id = req.material_id;
  task_id = req.task_id;
  scene_id = req.scene_id;
  ext1 = non_empty req.ext1;
  pid = non_empty req.pid;
  coupon_url = non_empty req.coupon_url;
  gift_coupon_key = non_empty req.gift_key;
  channel_id = if eqb_ℤ req.channel_id (pos 0) then none else some req.channel_id;
}

unfoldable pub or_default : Str → Str → Str
or_default given default = if str_eq given [] then default else given

-- The parameters that are signed.
unfoldable pub sign_params : Str → Str → Str → Params
sign_params app_key timestamp param_json =
    (codes "access_token", [])
    ∷ (codes "app_key", app_key)
    ∷ (codes "method", codes "jd.union.open.sh.promotion.get")
    ∷ (codes "v", codes "1.0")
    ∷ (codes "timestamp", timestamp)
    ∷ (codes "360buy_param_json", param_json)
    ∷ []

url_values : Str → Str → Str → Bytes → Values
unfolding set utf8
url_values app_key timestamp param_json sign =
    let v = set [] (codes "access_token") [] in
    let v = set v (codes "app_key") (utf8 app_key) in
    let v = set v (codes "method") (codes "jd.union.open.sh.promotion.get") in
    let v = set v (codes "v") (codes "1.0") in
    let v = set v (codes "sign") sign in
    let v = set v (codes "360buy_param_json") (utf8 param_json) in
    set v (codes "timestamp") (utf8 timestamp)

unfoldable pub request_url : Str → Str → Str → Str → Bytes
unfolding url_values encode sign_params generate_jd_sh_sign
request_url app_key secret timestamp param_json =
    let sign = generate_jd_sh_sign (sign_params app_key timestamp param_json) secret in
    codes "https://api.jd.com/routerjson"
    ++ b'?' ∷ encode (url_values app_key timestamp param_json sign)

unfoldable pub checked_result : PromotionResult → Returns PromotionResult
checked_result result =
    if eqb_ℤ result.code (pos 200) then returned result else failed (errorf "JD API query error")

-- Both codes are checked, and the inner JSON is read between them.
unfoldable pub result_of_response :
    (Str → Returns PromotionResult) → PromotionResponse → Returns PromotionResult
unfolding checked_result
result_of_response unmarshal_result r =
    if str_eq r.code (codes "0")
    then (do
      result ← wrap_error "failed to parse getResult" (unmarshal_result r.get_result)
      checked_result result)
    else failed (errorf "JD API error")

-- The functions that read the two replies run after the request was sent.
unfoldable pub fetch_jd_sh_promotion :
    Service → PromotionRequest → Str → Str → Log → Returns PromotionResult × Log
unfolding inner_req or_default request_url jd_http_get result_of_response
fetch_jd_sh_promotion jd req app_key secret log =
    let url =
      request_url (or_default app_key jd_sh_app_key) (or_default secret jd_sh_app_secret)
        (jd.timestamp log) (jd.marshal (inner_req req)) in
    let (response, log') = jd_http_get jd.server url jd.unmarshal_response log in
    ((do r ← response; result_of_response jd.unmarshal_result r), log')
