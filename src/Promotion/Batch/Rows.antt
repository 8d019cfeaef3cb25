-- ===== src/Promotion/Batch/Rows.antt =====
-- The requests of a batch of promotion links.
use report_api.Prelude.{
  ◌+◌, ◌≡◌, refl, Option, none, some, List, [], ◌∷◌, ◌++◌, length, length-append, arith,
}
use report_api.Prelude.Int.{ℤ}
use report_api.Go.Result.{Result, ok, Error}
use report_api.Go.Strconv.{atoi}
use report_api.Go.Text.{Str}
use report_api.Excel.{Row, Table, Workbook, read_table}
use report_api.Excel.Sheet.{Sheet}
use report_api.Excel.Batch.{start_batch}
use report_api.Excel.Batch.Report.{entries, report, asked, process_rows-report}
use report_api.Callback.Http.{Log}
use report_api.Order.Client.{jd_http_get}
use report_api.Promotion.{Service, PromotionRequest, fetch_jd_sh_promotion}
use report_api.Promotion.Batch.{
  promotion_request, entry_of_row, batch_header, answer_cells, ask, process_promotions,
  process_jd_sh_excel,
}

fetch-length :
    (jd : Service) (req : PromotionRequest) (app_key secret : Str) (log : Log)
    → length (fetch_jd_sh_promotion jd req app_key secret log).1 ≡ length log + 1
unfolding fetch_jd_sh_promotion jd_http_get
fetch-length jd req app_key secret log = omega (arith, length-append log (_ ∷ []))

module _ (jd : Service) (scene_id : ℤ) (task_id app_key secret : Str) where
  abbrev entries_of : List Row → List (Str × Str)
  entries_of = entries (entry_of_row task_id)

  abbrev asked_for : List (Str × Str) → Log → Log
  asked_for = asked (ask jd scene_id task_id app_key secret)

  ask-length :
      (entry : Str × Str) (log : Log) {task : ℤ}
      → atoi task_id ≡ some task
      → length (ask jd scene_id task_id app_key secret entry log).1 ≡ length log + 1
  unfolding ask
  ask-length entry log {task} e =
      rw (e, ask)
        (fetch-length jd (promotion_request jd scene_id task_id app_key secret task entry) app_key
          secret log)

  asked-length :
      (es : List (Str × Str)) (log : Log) {task : ℤ}
      → atoi task_id ≡ some task
      → length (asked_for es log) ≡ length log + length es
  asked-length [] log e = omega arith
  asked-length (entry ∷ es) log e = omega (
    arith,
    asked-length es (ask jd scene_id task_id app_key secret entry log).1 e,
    ask-length entry log e,
  )

  -- Where the workbook can be read, the task id is a number and the result can be saved, processJdShExcel
  -- succeeds: below its header the result has the cells of each accepted row, in order, and there was
  -- one request for each of them.
  pub process_jd_sh_excel-report :
      (save_as : Str → Sheet → Option Error) (now : Log → Str) (opened : Result Workbook)
      (log : Log) {table : Table} {task : ℤ}
      → read_table "打开Excel失败" "Excel文件中没有工作表" "读取行失败" "Excel文件没有数据行" opened ≡ ok table
      → atoi task_id ≡ some task
      → ((path : Str) (sheet : Sheet) → save_as path sheet ≡ none)
      → let es = entries_of table.body in
        let (result, sent) =
          process_jd_sh_excel jd scene_id task_id app_key secret save_as now opened log in
        ((path : Str) × (result
            ≡ ok (
              path,
              batch_header
                  ++ report
                      (ask jd scene_id task_id app_key secret)
                      (answer_cells jd scene_id task_id app_key secret)
                      2
                      es
                      log,
            )))
        × (sent ≡ asked_for es log)
        × (length sent ≡ length log + length es)
  unfolding process_jd_sh_excel process_promotions
  process_jd_sh_excel-report save_as now opened log {table} e number saves =
      let (_, sheet, sent) =
        process_rows-report (entry_of_row task_id) (ask jd scene_id task_id app_key secret)
          (answer_cells jd scene_id task_id app_key secret) table.body
          (start_batch batch_header log) in
      rw (e, process_jd_sh_excel, saves _ _, sheet, sent)
        ((_, refl), refl, asked-length (entries_of table.body) log number)
