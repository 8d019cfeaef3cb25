-- ===== src/Callback/Upload.antt =====
-- The handlers `Upload…ExcelFiles`: two workbooks are checked, saved and processed.
pub mod Safety
pub mod Single
use report_api.Prelude.{
  ℕ, Bool, true, false, ◌||◌, Option, none, some, List, [], ◌∷◌, ◌++◌, ◌⊎◌, inl, inr, length,
  if◌then◌else◌,
}
use report_api.Go.Result.{Error, errorf, Result, ok, err, panic}
use report_api.Go.Text.{Str, Bytes, codes, str_eq, has_suffix}
use report_api.Excel.{Workbook}
use report_api.Callback.Http.{Log}
use report_api.Callback.Process.{Run}

-- A file of the form.
pub record Upload : Type 0 where
  pub filename : Str
  pub content : Bytes

-- The files that requests have saved, the latest first.
abbrev pub Disk : Type 0
Disk = List (Str × Bytes)

unfoldable pub read_file : Str → Disk → Option Bytes
unfolding str_eq
read_file path [] = none
read_file path ((p, content) ∷ disk) = if str_eq p path then some content else read_file path disk

-- The reply to the request. `fault` is the status 500 by which `gin.Recovery` answers a panic.
pub data Reply : Type 0 where
  bad_form : Error → Reply
  wrong_count : ℕ → Reply
  not_excel : ℕ → Str → Reply
  save_failed : ℕ → Error → Reply
  process_failed : Error → Reply
  fault : Reply
  success : Run → Reply

unfoldable pub status : Reply → ℕ
status (bad_form e) = 400
status (wrong_count n) = 400
status (not_excel i name) = 400
status (save_failed i e) = 500
status (process_failed e) = 500
status fault = 500
status (success run) = 200

unfoldable pub is_excel : Str → Bool
unfolding has_suffix
is_excel name = has_suffix name (codes ".xlsx") || has_suffix name (codes ".xls")

-- `fmt.Sprintf("uploaded_excel_%d_%s", i+1, filename)` for the two files.
unfoldable pub save_path : Bool → Str → Str
save_path true name = codes "uploaded_excel_1_" ++ name
save_path false name = codes "uploaded_excel_2_" ++ name

-- The library's `SaveUploadedFile` may fail at a path, and `OpenFile` reads what a path holds.
pub record Files : Type 0 where
  pub save_error : Str → Option Error
  pub open_workbook : Bytes → Result Workbook

-- What the request leaves: the reply, the disk and the requests sent.
pub record Outcome : Type 0 where
  pub reply : Reply
  pub disk : Disk
  pub sent : Log

unfoldable pub finish : Disk → Result Run × Log → Outcome
finish disk (ok run, sent) = record { reply = success run; disk = disk; sent = sent }
finish disk (err e, sent) = record { reply = process_failed e; disk = disk; sent = sent }
finish disk (panic p, sent) = record { reply = fault; disk = disk; sent = sent }

module _ (files : Files) where
  -- One round of the loop: the reply that ends the request, or the disk with the file saved.
  unfoldable pub save_upload : Bool → Upload → Disk → Reply ⊎ Disk
  unfolding is_excel save_path
  save_upload is_first u disk =
      let number = if is_first then 1 else 2 in
      let path = save_path is_first u.filename in
      if is_excel u.filename
      then (elim (files.save_error path) [
        | some e ↦ inl (save_failed number e)
        | none ↦ inr ((path, u.content) ∷ disk)
      ])
      else inl (not_excel number u.filename)

  opened : Option Bytes → Result Workbook
  opened none = err (errorf "open: no such file or directory")
  opened (some content) = files.open_workbook content

  -- `excelize.OpenFile(path)`.
  unfoldable pub open_file : Str → Disk → Result Workbook
  unfolding read_file opened
  open_file path disk = opened (read_file path disk)

  -- The data source is what was saved first, the click table what was saved second.
  unfoldable pub run_saved :
      (Result Workbook → Result Workbook → Log → Result Run × Log)
      → Str
      → Str
      → Disk
      → Log
      → Outcome
  unfolding open_file finish
  run_saved process source_path click_path disk log =
      finish disk (process (open_file source_path disk) (open_file click_path disk) log)

  -- `form.File["files"]`: an error of `MultipartForm`, or the files.
  unfoldable pub upload :
      (Result Workbook → Result Workbook → Log → Result Run × Log)
      → Result (List Upload)
      → Disk
      → Log
      → Outcome
  upload process (err e) disk log = record { reply = bad_form e; disk = disk; sent = log }
  upload process (panic p) disk log = record { reply = fault; disk = disk; sent = log }
  upload process (ok (a ∷ b ∷ [])) disk log = elim (save_upload true a disk) [
    | inl reply ↦ record { reply = reply; disk = disk; sent = log }
    | inr disk₁ ↦ elim (save_upload false b disk₁) [
      | inl reply ↦ record { reply = reply; disk = disk₁; sent = log }
      | inr disk₂ ↦
          run_saved process (save_path true a.filename) (save_path false b.filename) disk₂ log
    ]
  ]
  upload process (ok uploads) disk log = record {
    reply = wrong_count (length uploads);
    disk = disk;
    sent = log;
  }
