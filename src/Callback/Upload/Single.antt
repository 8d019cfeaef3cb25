-- ===== src/Callback/Upload/Single.antt =====
-- The handlers of service/jd_sh.go and taobao_activity.go that take one workbook:
-- `BatchProcessJdShPromotion` and the second half of `GetActivityReport`.
pub mod Replies
use report_api.Prelude.{ℕ, Bool, String, Option, none, some, List, [], ◌∷◌, ◌++◌, if◌then◌else◌}
use report_api.Go.Result.{Error, Result, ok, err, panic}
use report_api.Go.Returns.{Returns, failed, returned}
use report_api.Go.Text.{Str, codes}
use report_api.Excel.{Workbook}
use report_api.Excel.Sheet.{Sheet}
use report_api.Callback.Http.{Log}
use report_api.Callback.Upload.{Upload, Disk, is_excel, Files, open_file}

-- `missing` is a parameter or a file that the request lacks.
pub data FileReply : Type 0 where
  missing : String → FileReply
  not_excel : String → FileReply
  not_saved : Error → FileReply
  not_processed : Error → FileReply
  fault : FileReply
  result_file : Str → Sheet → FileReply

unfoldable pub file_status : FileReply → ℕ
file_status (missing text) = 400
file_status (not_excel text) = 400
file_status (not_saved e) = 500
file_status (not_processed e) = 500
file_status fault = 500
file_status (result_file path sheet) = 200

unfoldable pub file_reply : Result (Str × Sheet) → FileReply
file_reply (ok (path, sheet)) = result_file path sheet
file_reply (err e) = not_processed e
file_reply (panic p) = fault

-- The reply, the disk and the requests sent.
abbrev pub Served : Type 0
Served = FileReply × (Disk × Log)

-- `prefix` is that of the upload's path, and `ctx.FormFile("file")` yields the file or an error.
module _ (files : Files) (prefix no_file other_type : String)
    (process : Result Workbook → Log → Result (Str × Sheet) × Log) where
  unfoldable pub upload_file : Returns Upload → Disk → Log → Served
  unfolding is_excel open_file file_reply
  upload_file (failed e) disk log = (missing no_file, (disk, log))
  upload_file (returned u) disk log =
      let path = codes prefix ++ u.filename in
      if is_excel u.filename
      then (elim (files.save_error path) [
        | some e ↦ (not_saved e, (disk, log))
        | none ↦
            let saved = (path, u.content) ∷ disk in
            let (result, log') = process (open_file files path saved) log in
            (file_reply result, (saved, log'))
      ])
      else (not_excel other_type, (disk, log))
