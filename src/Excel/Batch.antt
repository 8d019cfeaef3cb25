-- ===== src/Excel/Batch.antt =====
-- The loop that the two batch reports share (service/jd_sh.go and taobao_activity.go): a request for
-- each row of a workbook that is not passed over, and a row of the result for each request.
pub mod Report
use report_api.Prelude.{ℕ, ◌+◌, Option, none, some, List, [], ◌∷◌, ◌++◌}
use report_api.Excel.{Row}
use report_api.Excel.Sheet.{Sheet}
use report_api.Callback.Http.{Log}

-- The next row of the result, the result and the requests sent.
pub record Batch : Type 0 where
  pub row_index : ℕ
  pub sheet : Sheet
  pub sent : Log

-- `rowIndex := 2`, below the header.
abbrev pub start_batch : Sheet → Log → Batch
start_batch header log = record { row_index = 2; sheet = header; sent = log }

module _ {E A : Type 0} (entry_of : Row → Option E) (ask : E → Log → A × Log)
    (cells : ℕ → E → A → Sheet) where
  unfoldable pub process_entry : E → Batch → Batch
  process_entry entry b =
      let (answer, sent) = ask entry b.sent in
      record {
        row_index = b.row_index + 1;
        sheet = b.sheet ++ cells b.row_index entry answer;
        sent = sent;
      }

  unfoldable pub process_rows : List Row → Batch → Batch
  unfolding process_entry
  process_rows [] b = b
  process_rows (row ∷ rows) b = elim (entry_of row) [
    | none ↦ process_rows rows b
    | some entry ↦ process_rows rows (process_entry entry b)
  ]
