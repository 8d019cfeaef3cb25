-- ===== src/Callback/Click.antt =====
-- The click table ("打点表"): `readClickDataExcel` and its four copies.
pub mod Clean
use report_api.Prelude.{ℕ, ◌||◌, Option, none, some, List, [], ◌∷◌, get_or, if◌then◌else◌}
use report_api.Prelude.Int.{ℤ}
use report_api.Go.Result.{Result, ok, err, errorf, ◌>>=◌}
use report_api.Go.Text.{Str, codes}
use report_api.Go.Strconv.{atoi}
use report_api.Excel.{Row, Workbook, open_table, find_column_index, clean_id, is_short}

-- `ClickDataRecord`.
pub record Click : Type 0 where
  pub ad_id : Str
  pub click_count : ℤ

-- A short row, or one whose count is no number, is passed over.
unfoldable pub click_of_row : ℕ → ℕ → Row → Option Click
click_of_row ad_id_col click_count_col row =
    if is_short row ad_id_col || is_short row click_count_col
    then none
    else elim (atoi (get_or row click_count_col [])) [
      | none ↦ none
      | some n ↦ some (record { ad_id = clean_id (get_or row ad_id_col []); click_count = n })
    ]

unfoldable pub clicks_of_rows : ℕ → ℕ → List Row → List Click
clicks_of_rows ad_id_col click_count_col [] = []
clicks_of_rows ad_id_col click_count_col (row ∷ rows) =
    elim (click_of_row ad_id_col click_count_col row) [
      | none ↦ clicks_of_rows ad_id_col click_count_col rows
      | some c ↦ c ∷ clicks_of_rows ad_id_col click_count_col rows
    ]

unfoldable pub click_columns : Option ℕ → Option ℕ → List Row → Result (List Click)
click_columns (some ad_id_col) (some click_count_col) body =
    ok (clicks_of_rows ad_id_col click_count_col body)
click_columns _ _ body = err (errorf "required columns (广告id, 点击数) not found in click data")

unfoldable pub read_click_data : Result Workbook → Result (List Click)
read_click_data opened = do
  table ← open_table "no sheets found in click data file" "click data file has no data rows" opened
  click_columns (find_column_index table.header (codes "广告id" ∷ codes "广告ID" ∷ codes "ad_id" ∷ []))
      (find_column_index table.header (codes "点击数" ∷ codes "点击次数" ∷ codes "click_count" ∷ []))
      table.body
