-- ===== src/Promotion/Handler.antt =====
-- `GetJdShPromotion`.
pub mod Replies
use report_api.Prelude.{ℕ, Bool, String, List, [], if◌then◌else◌}
use report_api.Prelude.Int.{ℤ, pos, eqb_ℤ}
use report_api.Go.Result.{Error}
use report_api.Go.Returns.{Returns, failed, returned}
use report_api.Go.Text.{Str, str_eq}
use report_api.Callback.Http.{Log}
use report_api.Promotion.{
  Service, PromotionRequest, PromotionResult, jd_sh_app_key, jd_sh_app_secret,
  fetch_jd_sh_promotion,
}

pub data PromotionReply : Type 0 where
  invalid_parameters : Error → PromotionReply
  missing : String → PromotionReply
  not_fetched : Error → PromotionReply
  fetched : PromotionResult → PromotionReply

unfoldable pub promotion_status : PromotionReply → ℕ
promotion_status (invalid_parameters e) = 400
promotion_status (missing field) = 400
promotion_status (not_fetched e) = 500
promotion_status (fetched r) = 200

unfoldable pub fetched_reply : Returns PromotionResult → PromotionReply
fetched_reply (failed e) = not_fetched e
fetched_reply (returned r) = fetched r

-- `ShouldBindQuery` is gin's: it yields the request or an error.
unfoldable pub get_jd_sh_promotion : Service → Returns PromotionRequest → Log → PromotionReply × Log
unfolding fetch_jd_sh_promotion fetched_reply str_eq
get_jd_sh_promotion jd (failed e) log = (invalid_parameters e, log)
get_jd_sh_promotion jd (returned req) log =
    if str_eq req.account []
    then (missing "account", log)
    else if str_eq req.material_id []
    then (missing "materialId", log)
    else if eqb_ℤ req.scene_id (pos 0)
    then (missing "sceneId", log)
    else (let (result, log') = fetch_jd_sh_promotion jd req jd_sh_app_key jd_sh_app_secret log in
        (fetched_reply result, log'))
