-- ===== src/Callback/Upload/Safety.antt =====
-- What a reply of success says about a request for callbacks.
use report_api.Prelude.{
  ◌≡◌, ◌≢◌, refl, Bool, true, false, some, List, [], ◌∷◌, inl, inr, arith, Bool-cases, ◌⊎◌,
  if◌then◌else◌, Option-cases,
}
use report_api.Go.Result.{Result, ok, err, panic}
use report_api.Go.Text.{Str, Bytes, str_eq, str_eq_refl}
use report_api.Excel.{Workbook}
use report_api.Callback.Http.{Log}
use report_api.Callback.Process.{Run}
use report_api.Callback.Upload.{
  Upload, Disk, read_file, Reply, success, status, not_excel, save_failed, is_excel, save_path,
  Files, save_upload, finish, upload, opened, run_saved,
}

module _ (files : Files)
    (process : Result Workbook → Result Workbook → Log → Result Run × Log) where
  save_upload-cases :
      (is_first : Bool) (u : Upload) (disk : Disk)
      → ((r : Reply) × (save_upload files is_first u disk ≡ inl r) × (status r ≢ 200))
        ⊎ ((is_excel u.filename ≡ true)
            × (save_upload files is_first u disk
                ≡ inr ((save_path is_first u.filename, u.content) ∷ disk)))
  unfolding save_upload status
  save_upload-cases is_first u disk = elim (Bool-cases (is_excel u.filename)) [
    | inr other ↦ inl (not_excel (if is_first then 1 else 2) u.filename, rw other, omega arith)
    | inl excel ↦ elim (Option-cases (files.save_error (save_path is_first u.filename))) [
      | inl saved ↦ inr (excel, rw (excel, saved))
      | inr (e, failed) ↦
          inl (save_failed (if is_first then 1 else 2) e, rw (excel, failed), omega arith)
    ]
  ]

  -- The first path is not the second, so the second file does not hide the first.
  read_both :
      (a b : Str) (x y : Bytes) (disk : Disk)
      → let saved = (save_path false b, y) ∷ (save_path true a, x) ∷ disk in
        (read_file (save_path true a) saved ≡ some x)
        × (read_file (save_path false b) saved ≡ some y)
  unfolding read_file save_path str_eq
  read_both a b x y disk = (rw (str_eq_refl a), rw (str_eq_refl b))

  abbrev saved_both : Upload → Upload → Disk → Disk
  saved_both a b disk =
      (save_path false b.filename, b.content) ∷ (save_path true a.filename, a.content) ∷ disk

  abbrev both_opened : Upload → Upload → Log → Result Run × Log
  both_opened a b log = process (files.open_workbook a.content) (files.open_workbook b.content) log

  run_saved-finish :
      (a b : Upload) (disk : Disk) (log : Log)
      → run_saved files process
          (save_path true a.filename)
          (save_path false b.filename)
          (saved_both a b disk)
          log
        ≡ finish (saved_both a b disk) (both_opened a b log)
  unfolding run_saved opened
  run_saved-finish a b disk log =
      let (first, second) = read_both a.filename b.filename a.content b.content disk in
      rw (first, second)

  upload-cases :
      (a b : Upload) (disk : Disk) (log : Log)
      → let out = upload files process (ok (a ∷ b ∷ [])) disk log in
        (status out.reply ≢ 200)
        ⊎ ((is_excel a.filename ≡ true)
            × (is_excel b.filename ≡ true)
            × (out ≡ finish (saved_both a b disk) (both_opened a b log)))
  unfolding upload status
  upload-cases a b disk log = elim (save_upload-cases true a disk) [
    | inl (r, e, bad) ↦ inl (rw (e, upload) bad)
    | inr (xa, e) ↦
        elim (save_upload-cases false b ((save_path true a.filename, a.content) ∷ disk)) [
          | inl (r, e', bad) ↦ inl (rw (e, upload, e') bad)
          | inr (xb, e') ↦ inr (xa, xb, rw (e, upload, e') (run_saved-finish a b disk log))
        ]
  ]

  finish-success :
      (disk : Disk) (r : Result Run × Log) (run : Run)
      → (finish disk r).reply ≡ success run
      → r ≡ (ok run, (finish disk r).sent)
  unfolding finish
  finish-success disk (ok r, sent) run h = cc
  finish-success disk (err e, sent) run h = cc
  finish-success disk (panic p, sent) run h = cc

  -- A success means that there were two files, that both were workbooks and were saved, and that the
  -- reply is what processing them gave.
  pub upload_success :
      (form : Result (List Upload)) (disk : Disk) (log : Log) (run : Run)
      → (upload files process form disk log).reply ≡ success run
      → (a : Upload) × (b : Upload) × (form ≡ ok (a ∷ b ∷ []))
        × (is_excel a.filename ≡ true)
        × (is_excel b.filename ≡ true)
        × (process (files.open_workbook a.content) (files.open_workbook b.content) log
            ≡ (ok run, (upload files process form disk log).sent))
  unfolding upload status
  upload_success (err e) disk log run h = cc
  upload_success (panic p) disk log run h = cc
  upload_success (ok []) disk log run h = cc
  upload_success (ok (a ∷ [])) disk log run h = cc
  upload_success (ok (a ∷ b ∷ [])) disk log run h = elim (upload-cases a b disk log) [
    | inl bad ↦ absurd (bad (rw (h, status)))
    | inr (xa, xb, e) ↦ (a, b, refl, xa, xb, rw e (finish-success _ _ run (rw e at h)))
  ]
  upload_success (ok (a ∷ b ∷ c ∷ us)) disk log run h = cc
