-- ===== src/Excel/Sheet.antt =====
-- The sheets that the program writes with excelize: `f.SetCellValue(sheet, cell, value)`.
pub mod Columns
use report_api.Prelude.{
  ℕ, ◌+◌, ◌-◌, ◌/◌, ◌%◌, Bool, ◌&&◌, Option, none, some, List, [], ◌∷◌, ◌++◌, map, String, ltb,
  ◌==◌, if◌then◌else◌,
}
use report_api.Prelude.Int.{ℤ}
use report_api.Go.Result.{Error}
use report_api.Go.Text.{Str, codes, str_eq}

-- A `float64` is only copied: its 64 bits.
abbrev pub Float64 : Type 0
Float64 = ℕ

-- `failure text e` is `fmt.Sprintf("text: %v", e)`.
pub data Value : Type 0 where
  text : Str → Value
  number : ℤ → Value
  float : Float64 → Value
  boolean : Bool → Value
  failure : String → Error → Value

-- One call: the cell is `fmt.Sprintf("%s%d", column, row)`.
pub record Write : Type 0 where
  pub column : Str
  pub row : ℕ
  pub value : Value

-- The calls in order.
abbrev pub Sheet : Type 0
Sheet = List Write

abbrev pub cell : Str → ℕ → Value → Write
cell column row value = record { column = column; row = row; value = value }

abbrev pub newer : Option Value → Option Value → Option Value
newer none old = old
newer (some v) old = some v

-- What a cell holds in the end: the last call decides.
unfoldable pub cell_value : Str → ℕ → Sheet → Option Value
unfolding str_eq
cell_value column row [] = none
cell_value column row (w ∷ sheet) =
    newer (cell_value column row sheet)
      (if str_eq w.column column && (w.row == row) then some w.value else none)

-- `string(rune('A'+i))`, and two letters from 26 on.
unfoldable pub column_name : ℕ → Str
column_name i = if ltb i 26 then (b'A' + i) ∷ [] else (b'A' + (i / 26 - 1)) ∷ (b'A' + i % 26) ∷ []

-- The names of the columns in one row, from the i-th column on: the loop over the headers.
unfoldable pub fill_row : ℕ → ℕ → List Value → Sheet
unfolding column_name
fill_row row i [] = []
fill_row row i (v ∷ values) = cell (column_name i) row v ∷ fill_row row (i + 1) values

-- Values of one row, each written to a column that the code names by its letters.
unfoldable pub write_cells : ℕ → List (Str × Value) → Sheet
write_cells row [] = []
write_cells row ((column, v) ∷ values) = cell column row v ∷ write_cells row values

-- One row for each record, from the row `row` on.
unfoldable pub fill_rows {ℓ} : {R : Type ℓ} → (R → List (Str × Value)) → ℕ → List R → Sheet
unfolding write_cells
fill_rows values row [] = []
fill_rows values row (r ∷ records) =
    write_cells row (values r) ++ fill_rows values (row + 1) records

-- A table: the names of the columns in the first row, and a row for each record below.
unfoldable pub table_sheet {ℓ} : {R : Type ℓ} → List Str → (R → List (Str × Value)) → List R → Sheet
unfolding fill_row fill_rows
table_sheet headers values records = fill_row 1 0 (map text headers) ++ fill_rows values 2 records
