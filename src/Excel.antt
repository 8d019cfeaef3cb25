-- ===== src/Excel.antt =====
-- What service/*.go reads from an uploaded workbook. The library excelize opens it: its result is a
-- `Workbook`, and a missing column's index -1 is `none`.
pub mod CleanId
pub mod Cells
pub mod Sheet
pub mod Batch
use report_api.Prelude.{
  ℕ, ◌+◌, Bool, true, false, ◌||◌, Option, none, some, List, [], ◌∷◌, String, length, get_or, ltb,
  if◌then◌else◌,
}
use report_api.Go.Result.{Result, ok, err, errorf, wrap, ◌>>=◌}
use report_api.Go.Text.{Str, codes, str_eq}
use report_api.Go.Text.Trim.{trim_space}
use report_api.Go.Text.Replace.{replace_all}

abbrev pub Row : Type 0
Row = List Str

-- `f.GetSheetList()` and `f.GetRows(sheet)`.
pub record Workbook : Type 0 where
  pub sheets : List Str
  pub get_rows : Str → Result (List Row)

-- A header row and the data rows behind it.
pub record Table : Type 0 where
  pub header : Row
  pub body : List Row

unfoldable pub has_data : String → List Row → Result Table
has_data no_rows (header ∷ row ∷ body) = ok (record { header = header; body = row ∷ body })
has_data no_rows _ = err (errorf no_rows)

first_sheet : String → Workbook → List Str → Result (List Row)
first_sheet no_sheets book [] = err (errorf no_sheets)
first_sheet no_sheets book (sheet ∷ _) = book.get_rows sheet

-- The rows of the first sheet, of which there must be two; each reader has its two messages.
unfoldable pub open_table : String → String → Result Workbook → Result Table
unfolding first_sheet has_data
open_table no_sheets no_rows opened = do
  book ← opened
  rows ← first_sheet no_sheets book book.sheets
  has_data no_rows rows

sheet_rows : String → String → Workbook → List Str → Result (List Row)
sheet_rows no_sheets rows_failed book [] = err (errorf no_sheets)
sheet_rows no_sheets rows_failed book (sheet ∷ _) = wrap rows_failed (book.get_rows sheet)

-- The same in the two batch reports, whose errors say where they come from.
unfoldable pub read_table : String → String → String → String → Result Workbook → Result Table
unfolding sheet_rows has_data
read_table open_failed no_sheets rows_failed no_rows opened = do
  book ← wrap open_failed opened
  rows ← sheet_rows no_sheets rows_failed book book.sheets
  has_data no_rows rows

is_named : Str → List Str → Bool
is_named col [] = false
is_named col (name ∷ names) = str_eq (trim_space col) name || is_named col names

find_from : ℕ → Row → List Str → Option ℕ
unfolding is_named
find_from i [] names = none
find_from i (col ∷ header) names =
    if is_named col names then some i else find_from (i + 1) header names

unfoldable pub find_column_index : Row → List Str → Option ℕ
unfolding find_from str_eq trim_space
find_column_index header names = find_from 0 header names

-- The white space that both tables' ids are rid of.
unfoldable pub clean_id : Str → Str
unfolding replace_all
clean_id s =
    let trimmed = trim_space s in
    let no_tab = replace_all trimmed (codes "\t") [] in
    let no_line = replace_all no_tab (codes "\n") [] in replace_all no_line (codes "\r") []

-- `if col != -1 && len(row) > col { field = row[col] }`, with the field empty before.
unfoldable pub optional_cell : Row → Option ℕ → Str
optional_cell row none = []
optional_cell row (some col) = if ltb col (length row) then get_or row col [] else []

-- `len(row) <= col`.
unfoldable pub is_short : Row → ℕ → Bool
is_short row col = if ltb col (length row) then false else true
