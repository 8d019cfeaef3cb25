-- ===== src/Callback/Upload/Single/Replies.antt =====
-- What the reply to one workbook says about the request.
use report_api.Prelude.{
  ◌≡◌, ◌≢◌, refl, ap, ◌∙◌, ◌⊎◌, inl, inr, true, Bool-cases, Option-cases, ◌∷◌, ◌++◌, String, arith,
}
use report_api.Go.Result.{Result, ok, err, panic}
use report_api.Go.Returns.{Returns, failed, returned}
use report_api.Go.Text.{Str, codes, str_eq, str_eq_refl}
use report_api.Excel.{Workbook}
use report_api.Excel.Sheet.{Sheet}
use report_api.Callback.Http.{Log}
use report_api.Callback.Upload.{Upload, Disk, read_file, is_excel, Files, opened, open_file}
use report_api.Callback.Upload.Single.{result_file, file_status, file_reply, upload_file}

module _ (files : Files) (prefix no_file other_type : String)
    (process : Result Workbook → Log → Result (Str × Sheet) × Log) where
  file_reply-success :
      (r : Result (Str × Sheet))
      → file_status (file_reply r) ≡ 200
      → (path : Str) × (sheet : Sheet) × (r ≡ ok (path, sheet))
        × (file_reply r ≡ result_file path sheet)
  unfolding file_status file_reply
  file_reply-success (ok (path, sheet)) h = (path, sheet, refl, refl)
  file_reply-success (err e) h = absurd (omega (arith, h))
  file_reply-success (panic p) h = absurd (omega (arith, h))

  abbrev saved : Upload → Disk → Disk
  saved u disk = (codes prefix ++ u.filename, u.content) ∷ disk

  open_file-saved :
      (u : Upload) (disk : Disk)
      → open_file files (codes prefix ++ u.filename) (saved u disk) ≡ files.open_workbook u.content
  unfolding open_file opened read_file str_eq
  open_file-saved u disk = rw (str_eq_refl (codes prefix ++ u.filename))

  upload_file-cases :
      (u : Upload) (disk : Disk) (log : Log)
      → let served = upload_file files prefix no_file other_type process (returned u) disk log in
        let (result, sent) = process (files.open_workbook u.content) log in
        (file_status served.0 ≢ 200)
        ⊎ ((is_excel u.filename ≡ true) × (served ≡ (file_reply result, (saved u disk, sent))))
  unfolding upload_file file_status
  upload_file-cases u disk log = elim (Bool-cases (is_excel u.filename)) [
    | inr other ↦ inl (rw other (omega arith))
    | inl excel ↦ elim (Option-cases (files.save_error (codes prefix ++ u.filename))) [
      | inr (e, not_written) ↦ inl (rw (excel, not_written) (omega arith))
      | inl no_error ↦ inr (excel, rw (excel, no_error, open_file-saved u disk))
    ]
  ]

  -- A reply with the status 200 is the result of processing the uploaded workbook itself, which was
  -- saved under the name of its file; the requests sent are those of processing it.
  pub upload_file_success :
      (form : Returns Upload) (disk : Disk) (log : Log)
      → let (reply, (disk', sent)) =
          upload_file files prefix no_file other_type process form disk log in
        file_status reply ≡ 200
        → (u : Upload) × (path : Str) × (sheet : Sheet) × (form ≡ returned u)
          × (is_excel u.filename ≡ true)
          × (reply ≡ result_file path sheet)
          × (disk' ≡ (codes prefix ++ u.filename, u.content) ∷ disk)
          × (process (files.open_workbook u.content) log ≡ (ok (path, sheet), sent))
  unfolding upload_file file_status
  upload_file_success (failed e) disk log h = absurd (omega (arith, h))
  upload_file_success (returned u) disk log h = elim (upload_file-cases u disk log) [
    | inl bad ↦ absurd (bad h)
    | inr (excel, e) ↦
        let (path, sheet, ran, reply) =
          file_reply-success (process (files.open_workbook u.content) log).0 (rw e at h) in
        (
          u,
          path,
          sheet,
          refl,
          excel,
          ap (λ served. served.0) e ∙ reply,
          ap (λ served. served.1.0) e,
          rw (ran, e),
        )
  ]
