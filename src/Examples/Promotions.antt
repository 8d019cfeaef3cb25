-- ===== src/Examples/Promotions.antt =====
-- Promotion links and signatures on a small service.
use mathlib.Core.List.{Permᴰ}
use report_api.Prelude.{
  ◌+◌, ◌≡◌, refl, true, false, Option, none, some, List, [], ◌∷◌, ◌++◌, length,
}
use report_api.Prelude.Int.{pos, eqb_ℤ}
use report_api.Go.Result.{Error, Result, ok}
use report_api.Go.Returns.{Returns, returned}
use report_api.Go.Strconv.{atoi}
use report_api.Go.Text.{Str, Bytes, codes, str_eq}
use report_api.Go.Text.Trim.{trim_space}
use report_api.Excel.{Row, Table, Workbook, read_table}
use report_api.Excel.Sheet.{Sheet}
use report_api.Excel.Batch.Report.{entries, report, asked}
use report_api.Callback.Http.{Log}
use report_api.Callback.Upload.{Upload, Disk, Files, is_excel}
use report_api.Callback.Upload.Single.{file_status, file_reply, result_file, upload_file}
use report_api.Callback.Upload.Single.Replies.{upload_file_success}
use report_api.Order.Client.{jd_http_get}
use report_api.Sign.{Params, generate_jd_sign, generate_jd_sh_sign, generate_sign}
use report_api.Sign.Order.{IsMap, generate_sign-Permᴰ}
use report_api.Promotion.{
  Service, PromotionRequest, PromotionResponse, PromotionResult, request_url, or_default,
  checked_result, result_of_response, fetch_jd_sh_promotion, jd_sh_app_key, jd_sh_app_secret,
}
use report_api.Promotion.Handler.{fetched, fetched_reply, get_jd_sh_promotion}
use report_api.Promotion.Handler.Replies.{get_jd_sh_promotion_fetched}
use report_api.Promotion.Batch.{entry_of_row, batch_header, answer_cells, ask, process_jd_sh_excel}
use report_api.Promotion.Batch.Rows.{process_jd_sh_excel-report}

abbrev params : Params
params = (codes "v", codes "1.0") ∷ (codes "app_key", codes "k") ∷ []

abbrev params_met : Params
params_met = (codes "app_key", codes "k") ∷ (codes "v", codes "1.0") ∷ []

params-IsMap : IsMap params
unfolding str_eq
params-IsMap = ((refl, tt), (tt, tt))

generate_sign-Permᴰ_example :
    (generate_jd_sign params (codes "s") ≡ generate_jd_sign params_met (codes "s"))
    × (generate_jd_sh_sign params (codes "s") ≡ generate_jd_sh_sign params_met (codes "s"))
    × (generate_sign params (codes "s") ≡ generate_sign params_met (codes "s"))
generate_sign-Permᴰ_example = generate_sign-Permᴰ (codes "s") (Permᴰ.swap refl refl) params-IsMap

abbrev link : PromotionResult
link = record {
  code = pos 200;
  message = [];
  click_url = codes "c";
  impression_monitor_url = [];
  click_monitor_url = [];
  app_url = [];
}

abbrev jd : Service
jd = record {
  marshal = λ req. [];
  unmarshal_response = λ body. returned (record { code = codes "0"; get_result = [] });
  unmarshal_result = λ text. returned link;
  server = λ log url. returned [];
  timestamp = λ log. [];
}

abbrev request : PromotionRequest
request = record {
  account = codes "a";
  task_id = pos 1;
  material_id = codes "m";
  scene_id = pos 1;
  ext1 = [];
  pid = [];
  coupon_url = [];
  gift_key = [];
  channel_id = pos 0;
}

abbrev link_url : Bytes
link_url =
    request_url (or_default jd_sh_app_key jd_sh_app_key)
      (or_default jd_sh_app_secret jd_sh_app_secret) [] []

link_fetched : (get_jd_sh_promotion jd (returned request) []).0 ≡ fetched link
unfolding get_jd_sh_promotion fetched_reply fetch_jd_sh_promotion jd_http_get result_of_response
    checked_result str_eq
link_fetched = refl

get_jd_sh_promotion_fetched_example :
    (content : Bytes) × (response : PromotionResponse) × (str_eq (codes "a") [] ≡ false)
    × (str_eq (codes "m") [] ≡ false)
    × (eqb_ℤ (pos 1) (pos 0) ≡ false)
    × (jd.server [] link_url ≡ returned content)
    × (jd.unmarshal_response content ≡ returned response)
    × (response.code ≡ codes "0")
    × (jd.unmarshal_result response.get_result ≡ returned link)
    × (eqb_ℤ link.code (pos 200) ≡ true)
    × ((get_jd_sh_promotion jd (returned request) []).1 ≡ link_url ∷ [])
get_jd_sh_promotion_fetched_example = get_jd_sh_promotion_fetched jd request [] link_fetched

abbrev rows : List Row
rows =
    (codes "account" ∷ codes "material" ∷ []) ∷ (codes "a" ∷ codes "m" ∷ []) ∷ (codes "b" ∷ []) ∷ []

abbrev opened : Result Workbook
opened = ok (record { sheets = codes "Sheet1" ∷ []; get_rows = λ sheet. ok rows })

abbrev table : Table
table = record {
  header = codes "account" ∷ codes "material" ∷ [];
  body = (codes "a" ∷ codes "m" ∷ []) ∷ (codes "b" ∷ []) ∷ [];
}

table_read : read_table "打开Excel失败" "Excel文件中没有工作表" "读取行失败" "Excel文件没有数据行" opened ≡ ok table
unfolding read_table
table_read = refl

task_number : atoi (codes "12") ≡ some (pos 12)
unfolding atoi
task_number = refl

abbrev save_as : Str → Sheet → Option Error
save_as path sheet = none

abbrev now : Log → Str
now log = []

one_entry : entries (entry_of_row (codes "12")) table.body ≡ (codes "a", codes "m") ∷ []
unfolding entries entry_of_row trim_space str_eq
one_entry = refl

abbrev task_asked : Str × Str → Log → Option (Returns PromotionResult) × Log
task_asked = ask jd (pos 1) (codes "12") [] []

process_jd_sh_excel-report_example :
    let es = entries (entry_of_row (codes "12")) table.body in
    let (result, sent) = process_jd_sh_excel jd (pos 1) (codes "12") [] [] save_as now opened [] in
    ((path : Str) × (result
        ≡ ok (
          path,
          batch_header ++ report task_asked (answer_cells jd (pos 1) (codes "12") [] []) 2 es [],
        )))
    × (sent ≡ asked task_asked es [])
    × (length sent ≡ 0 + length es)
process_jd_sh_excel-report_example =
    process_jd_sh_excel-report jd (pos 1) (codes "12") [] [] save_as now opened [] table_read
      task_number (λ path sheet. refl)

abbrev files : Files
files = record { save_error = λ path. none; open_workbook = λ content. opened }

abbrev workbook : Upload
workbook = record { filename = codes "a.xlsx"; content = codes "A" }

-- A result without cells.
abbrev processed : Result Workbook → Log → Result (Str × Sheet) × Log
processed book log = (ok (codes "r.xlsx", []), log ++ codes "sent" ∷ [])

upload_file_success_example :
    (u : Upload) × (path : Str) × (sheet : Sheet) × (returned workbook ≡ returned u)
    × (is_excel u.filename ≡ true)
    × (result_file (codes "r.xlsx") [] ≡ result_file path sheet)
    × (Path Disk
        ((codes "uploaded_jd_sh_a.xlsx", codes "A") ∷ [])
        ((codes "uploaded_jd_sh_" ++ u.filename, u.content) ∷ []))
    × (processed (files.open_workbook u.content) [] ≡ (ok (path, sheet), codes "sent" ∷ []))
unfolding upload_file is_excel file_reply file_status
upload_file_success_example =
    upload_file_success files "uploaded_jd_sh_" "no file" "no workbook" processed
      (returned workbook) [] [] refl
