-- ===== src/Promotion/Batch.antt =====
-- `processJdShExcel` of service/jd_sh.go: one promotion link for each row of a workbook.
pub mod Rows
use report_api.Prelude.{
  ℕ, ◌+◌, Bool, ◌||◌, Option, none, some, List, [], ◌∷◌, ◌++◌, length, get_or, ltb, if◌then◌else◌,
}
use report_api.Prelude.Int.{ℤ, pos}
use report_api.Go.Result.{Error, Result, ok, err, panic, wrapf}
use report_api.Go.Returns.{Returns, failed, returned}
use report_api.Go.Strconv.{atoi}
use report_api.Go.Text.{Str, codes, str_eq}
use report_api.Go.Text.Trim.{trim_space}
use report_api.Excel.{Row, Table, Workbook, read_table}
use report_api.Excel.Sheet.{Value, text, failure, Write, Sheet, cell}
use report_api.Excel.Batch.{Batch, start_batch, process_rows}
use report_api.Callback.Http.{Log}
use report_api.Promotion.{Service, PromotionRequest, PromotionResult, fetch_jd_sh_promotion}

-- The account and the material of a row, unless the loop passes over it.
unfoldable pub entry_of_row : Str → Row → Option (Str × Str)
unfolding trim_space str_eq
entry_of_row task_id row =
    if ltb (length row) 2
    then none
    else (let account = trim_space (get_or row 0 []) in
        let material_id = trim_space (get_or row 1 []) in
        if str_eq account [] || str_eq task_id [] || str_eq material_id []
        then none
        else some (account, material_id))

unfoldable pub batch_header : Sheet
batch_header =
    cell (codes "A") 1 (text (codes "任务ID"))
    ∷ cell (codes "B") 1 (text (codes "平台户ID"))
    ∷ cell (codes "C") 1 (text (codes "原始物料"))
    ∷ cell (codes "D") 1 (text (codes "推广链接"))
    ∷ cell (codes "E") 1 (text (codes "曝光监测地址"))
    ∷ cell (codes "F") 1 (text (codes "点击监测地址"))
    ∷ cell (codes "G") 1 (text (codes "app呼起链接"))
    ∷ cell (codes "H") 1 (text (codes "status"))
    ∷ []

module _ (jd : Service) (scene_id : ℤ) (task_id app_key secret : Str) where
  -- The first three cells of a row of the result.
  unfoldable pub entry_cells : ℕ → Str × Str → Sheet
  entry_cells row entry =
      cell (codes "A") row (text task_id)
      ∷ cell (codes "B") row (text entry.0)
      ∷ cell (codes "C") row (text entry.1)
      ∷ []

  unfoldable pub result_cells : ℕ → Returns PromotionResult → Sheet
  result_cells row (failed e) = cell (codes "H") row (failure "错误" e) ∷ []
  result_cells row (returned r) =
      cell (codes "D") row (text r.click_url)
      ∷ cell (codes "E") row (text r.impression_monitor_url)
      ∷ cell (codes "F") row (text r.click_monitor_url)
      ∷ cell (codes "G") row (text r.app_url)
      ∷ cell (codes "H") row (text (codes "成功"))
      ∷ []

  unfoldable pub promotion_request : ℤ → Str × Str → PromotionRequest
  promotion_request task entry = record {
    account = entry.0;
    task_id = task;
    material_id = entry.1;
    scene_id = scene_id;
    ext1 = [];
    pid = [];
    coupon_url = [];
    gift_key = [];
    channel_id = pos 0;
  }

  unfoldable pub answer_cells : ℕ → Str × Str → Option (Returns PromotionResult) → Sheet
  unfolding entry_cells result_cells
  answer_cells row entry none =
      entry_cells row entry ++ cell (codes "H") row (text (codes "taskId格式错误")) ∷ []
  answer_cells row entry (some result) = entry_cells row entry ++ result_cells row result

  -- What the service answers for an entry; `none` where the task id is no number and nothing is asked.
  unfoldable pub ask : Str × Str → Log → Option (Returns PromotionResult) × Log
  unfolding promotion_request fetch_jd_sh_promotion atoi
  ask entry log = elim (atoi task_id) [
    | none ↦ (none, log)
    | some task ↦
        let (result, log') =
          fetch_jd_sh_promotion jd (promotion_request task entry) app_key secret log in
        (some result, log')
  ]

  unfoldable pub process_promotions : List Row → Batch → Batch
  unfolding entry_of_row ask answer_cells process_rows
  process_promotions = process_rows (entry_of_row task_id) ask answer_cells

  -- `SaveAs` may fail, and the result's name shows the time.
  unfoldable pub process_jd_sh_excel :
      (Str → Sheet → Option Error)
      → (Log → Str)
      → Result Workbook
      → Log
      → Result (Str × Sheet) × Log
  unfolding process_promotions batch_header read_table
  process_jd_sh_excel save_as now opened log =
      elim (read_table "打开Excel失败" "Excel文件中没有工作表" "读取行失败" "Excel文件没有数据行" opened) [
        | err e ↦ (err e, log)
        | panic p ↦ (panic p, log)
        | ok table ↦
            let b = process_promotions table.body (start_batch batch_header log) in
            let path = codes "jd_sh_result_" ++ now b.sent ++ codes ".xlsx" in
            elim (save_as path b.sheet) [
              | some e ↦ (err (wrapf "保存结果文件失败" e), b.sent)
              | none ↦ (ok (path, b.sheet), b.sent)
            ]
      ]
