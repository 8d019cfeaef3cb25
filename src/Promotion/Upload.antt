-- ===== src/Promotion/Upload.antt =====
-- `BatchProcessJdShPromotion` of service/jd_sh.go.
use report_api.Prelude.{Option}
use report_api.Prelude.Int.{pos}
use report_api.Go.Result.{Error}
use report_api.Go.Returns.{Returns}
use report_api.Go.Text.{Str}
use report_api.Excel.Sheet.{Sheet}
use report_api.Callback.Http.{Log}
use report_api.Callback.Upload.{Upload, Disk, Files}
use report_api.Callback.Upload.Single.{Served, upload_file}
use report_api.Promotion.{Service}
use report_api.Promotion.Batch.{process_jd_sh_excel}

-- The three texts are the fields `taskId`, `appKey` and `secretkey` of the form; the scene is 1.
unfoldable pub batch_process_jd_sh_promotion :
    Service
    → Files
    → (Str → Sheet → Option Error)
    → (Log → Str)
    → Str
    → Str
    → Str
    → Returns Upload
    → Disk
    → Log
    → Served
unfolding upload_file process_jd_sh_excel
batch_process_jd_sh_promotion jd files save_as now task_id app_key secret =
    upload_file files "uploaded_jd_sh_" "文件上传失败" "只支持 .xlsx 和 .xls 文件"
      (process_jd_sh_excel jd (pos 1) task_id app_key secret save_as now)
