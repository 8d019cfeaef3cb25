-- ===== src/Callback/Click/Clean.antt =====
-- What the rows of the click table are once they are read.
use report_api.Prelude.{
  ℕ, ◌≡◌, sym, subst, Option, none, some, List, [], ◌∷◌, get_or, All, Option-cases, inl, inr, arith,
}
use report_api.Go.Result.{Result, ok, >>=-eq-ok, ok-injective}
use report_api.Excel.{Row, Workbook, open_table, clean_id}
use report_api.Excel.CleanId.{IsClean, clean_id-IsClean}
use report_api.Callback.Click.{Click, click_of_row, clicks_of_rows, click_columns, read_click_data}

click_of_row-clean_id :
    (a n : ℕ) (row : Row) (c : Click)
    → click_of_row a n row ≡ some c
    → c.ad_id ≡ clean_id (get_or row a [])
unfolding click_of_row
click_of_row-clean_id a n row c h = ground arith

click_of_row-IsClean :
    (a n : ℕ) (row : Row) (c : Click) → click_of_row a n row ≡ some c → IsClean c.ad_id
click_of_row-IsClean a n row c h =
    subst IsClean (sym (click_of_row-clean_id a n row c h)) (clean_id-IsClean (get_or row a []))

clicks_of_rows-IsClean :
    (a n : ℕ) (rows : List Row) → All (λ (c : Click). IsClean c.ad_id) (clicks_of_rows a n rows)
unfolding clicks_of_rows
clicks_of_rows-IsClean a n [] = tt
clicks_of_rows-IsClean a n (row ∷ rows) = elim (Option-cases (click_of_row a n row)) [
  | inl e ↦ rw (e, clicks_of_rows) (clicks_of_rows-IsClean a n rows)
  | inr (c, e) ↦
      rw (e, clicks_of_rows) (click_of_row-IsClean a n row c e, clicks_of_rows-IsClean a n rows)
]

click_columns-IsClean :
    (a n : Option ℕ) (rows : List Row) (clicks : List Click)
    → click_columns a n rows ≡ ok clicks
    → All (λ (c : Click). IsClean c.ad_id) clicks
unfolding click_columns
click_columns-IsClean (some a) (some n) rows clicks h =
    rw (← ok-injective h) (clicks_of_rows-IsClean a n rows)
click_columns-IsClean none n rows clicks h = cc
click_columns-IsClean (some a) none rows clicks h = cc

-- Every id read from the click table is clean: it has no tab and no end of a line, and it neither begins
-- nor ends with white space.
pub read_click_data-IsClean :
    (opened : Result Workbook) (clicks : List Click)
    → read_click_data opened ≡ ok clicks
    → All (λ (c : Click). IsClean c.ad_id) clicks
unfolding read_click_data
read_click_data-IsClean opened clicks h =
    let (table, _, e) = >>=-eq-ok (open_table _ _ opened) _ h in
    click_columns-IsClean _ _ table.body clicks e
