-- ===== src/Excel/Cells.antt =====
-- Reading a cell with and without a test of the index.
use report_api.Prelude.{
  ℕ, zero, suc, ◌≡◌, refl, Bool, true, false, ◌&&◌, ◌||◌, not, Option, none, some, List, [], ◌∷◌,
  length, get_elem?, get_or, arith, ltb, if◌then◌else◌,
}
use report_api.Go.Result.{ok, panic, index_out_of_range, index}
use report_api.Excel.{Row, is_short, optional_cell}

-- The row reaches both of the required columns.
abbrev pub is_accepted : ℕ → ℕ → Row → Bool
is_accepted ad_id_col callback_param_col row =
    not (is_short row ad_id_col || is_short row callback_param_col)

-- The header has the column, and the row reaches it.
abbrev pub has_cell : Option ℕ → Row → Bool
has_cell none row = false
has_cell (some col) row = ltb col (length row)

abbrev pub every {ℓ} : {A : Type ℓ} → (A → Bool) → List A → Bool
every p [] = true
every p (x ∷ xs) = p x && every p xs

get_elem?_in :
    (row : Row) (i : ℕ) → ltb i (length row) ≡ true → get_elem? row i ≡ some (get_or row i [])
get_elem?_in [] i h = ground arith
get_elem?_in (x ∷ row) zero h = refl
get_elem?_in (x ∷ row) (suc i) h = get_elem?_in row i (ground arith)

get_elem?_out : (row : Row) (i : ℕ) → ltb i (length row) ≡ false → get_elem? row i ≡ none
get_elem?_out [] i h = refl
get_elem?_out (x ∷ row) zero h = ground arith
get_elem?_out (x ∷ row) (suc i) h = get_elem?_out row i (ground arith)

-- The plain read panics exactly where the tested read falls back to the empty text.
pub index-cell :
    (row : Row) (col : Option ℕ)
    → index row col
      ≡ (if has_cell col row then ok (optional_cell row col) else panic index_out_of_range)
unfolding optional_cell
index-cell row none = refl
index-cell row (some i) = ground (arith, get_elem?_in row i, get_elem?_out row i)
