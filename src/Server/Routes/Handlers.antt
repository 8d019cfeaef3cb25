-- ===== src/Server/Routes/Handlers.antt =====
-- The handlers of handler/, as their `init` functions leave them, and `regHandlers` of
-- control/main_control.go.
use report_api.Prelude.{List, [], ◌∷◌}
use report_api.Go.Text.{codes}
use report_api.Server.Routes.{
  HandlerWorks, get_app_detail, get_cps_order, get_cps_income, get_cps_user, get_jd_order,
  get_jd_bonus_order, get_jd_sh, batch_process_jd_sh, upload_excel, upload_gdt_excel,
  get_activity_report, upload_honor_excel, upload_uc_excel, upload_ks_excel, get_mapping,
  post_mapping,
}

unfoldable pub get_report_api_handler : HandlerWorks
unfolding post_mapping
get_report_api_handler = post_mapping (codes "report_api") get_app_detail []

unfoldable pub get_cps_order_api_handler : HandlerWorks
unfolding get_mapping
get_cps_order_api_handler = get_mapping (codes "xianyu_cps_order") get_cps_order []

unfoldable pub get_cps_income_api_handler : HandlerWorks
unfolding get_mapping
get_cps_income_api_handler = get_mapping (codes "xianyu_cps_income") get_cps_income []

unfoldable pub get_cps_user_api_handler : HandlerWorks
unfolding get_mapping
get_cps_user_api_handler = get_mapping (codes "xianyu_cps_user") get_cps_user []

unfoldable pub get_jd_report_api_handler : HandlerWorks
unfolding get_mapping
get_jd_report_api_handler =
    get_mapping (codes "jd_bonus_order") get_jd_bonus_order
      (get_mapping (codes "jd_order") get_jd_order [])

unfoldable pub get_jd_sh_api_handler : HandlerWorks
unfolding get_mapping post_mapping
get_jd_sh_api_handler =
    post_mapping (codes "jd_sh_batch") batch_process_jd_sh
      (get_mapping (codes "jd_sh") get_jd_sh [])

unfoldable pub callback_api_handler : HandlerWorks
unfolding post_mapping
callback_api_handler = post_mapping (codes "upload_excel") upload_excel []

unfoldable pub gdtallback_api_handler : HandlerWorks
unfolding post_mapping
gdtallback_api_handler = post_mapping (codes "upload_gdt_excel") upload_gdt_excel []

unfoldable pub get_taobao_report_api_handler : HandlerWorks
unfolding post_mapping
get_taobao_report_api_handler = post_mapping (codes "activity") get_activity_report []

-- The `init` of uc_callback.go, which runs after that of honor_callback.go, adds to this handler too.
unfoldable pub honor_callback_api_handler : HandlerWorks
unfolding post_mapping
honor_callback_api_handler =
    post_mapping (codes "upload_uc_excel") upload_uc_excel
      (post_mapping (codes "upload_honor_excel") upload_honor_excel [])

unfoldable pub uc_callback_api_handler : HandlerWorks
uc_callback_api_handler = []

unfoldable pub ks_callback_api_handler : HandlerWorks
unfolding post_mapping
ks_callback_api_handler = post_mapping (codes "upload_ks_excel") upload_ks_excel []

unfoldable pub reg_handlers : List HandlerWorks
unfolding get_report_api_handler get_cps_order_api_handler get_cps_income_api_handler
    get_cps_user_api_handler get_jd_report_api_handler get_jd_sh_api_handler callback_api_handler
    gdtallback_api_handler get_taobao_report_api_handler honor_callback_api_handler
    uc_callback_api_handler ks_callback_api_handler
reg_handlers =
    get_report_api_handler ∷ get_cps_order_api_handler ∷ get_cps_income_api_handler
    ∷ get_cps_user_api_handler ∷ get_jd_report_api_handler ∷ get_jd_sh_api_handler
    ∷ callback_api_handler ∷ gdtallback_api_handler ∷ get_taobao_report_api_handler
    ∷ honor_callback_api_handler ∷ uc_callback_api_handler ∷ ks_callback_api_handler ∷ []
