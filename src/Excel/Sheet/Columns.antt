-- ===== src/Excel/Sheet/Columns.antt =====
-- Which column a name stands for, and what a written row holds.
use report_api.Prelude.{
  ℕ, zero, suc, ◌+◌, ◌-◌, ◌*◌, ◌<◌, ◌≤◌, ◌≡◌, refl, sym, ap, ◌∙◌, Bool, true, false, ◌&&◌, Option,
  none, some, List, [], ◌∷◌, ◌++◌, map, length, get_elem?, ◌==◌, ==_iff, Bool-cases, inl, inr,
  if◌then◌else◌, arith,
}
use report_api.Go.Text.{Str, str_eq, str_eq→eq, str_eq_refl}
use report_api.Excel.Sheet.{
  Value, Sheet, newer, cell_value, column_name, fill_row, write_cells, fill_rows, table_sheet, text,
}

-- The number that excelize reads in a column's name, from 0: letters are digits from 1 to 26.
unfoldable pub column_number : Str → ℕ
column_number [] = 0
column_number (a ∷ []) = a - b'A'
column_number (a ∷ b ∷ _) = (a - b'A' + 1) * 26 + (b - b'A')

-- The names of the first 702 columns are read back as the columns.
pub column_number-column_name : (i : ℕ) → i < 702 → column_number (column_name i) ≡ i
unfolding column_number column_name
column_number-column_name i h = ground arith

column_name-injective : (i j : ℕ) → i < 702 → j < 702 → column_name i ≡ column_name j → i ≡ j
column_name-injective i j h k e =
    sym (column_number-column_name i h) ∙ ap column_number e ∙ column_number-column_name j k

same_name : (i j : ℕ) → i ≡ j → str_eq (column_name i) (column_name j) ≡ true
same_name i j e = rw e (str_eq_refl (column_name j))

str_eq-column_name :
    (i j : ℕ) → i < 702 → j < 702 → str_eq (column_name i) (column_name j) ≡ (i == j)
str_eq-column_name i j h k = elim (Bool-cases (str_eq (column_name i) (column_name j))) [
  | inl e ↦ rw e (sym ((==_iff i j).1 (column_name-injective i j h k (str_eq→eq _ _ e))))
  | inr e ↦ rw e (sym (different (i == j) refl e))
]
  where
    different :
        (b : Bool) → (i == j) ≡ b → str_eq (column_name i) (column_name j) ≡ false → b ≡ false
    different false same e = refl
    different true same e = absurd (ground (arith, same_name i j ((==_iff i j).0 same), e))

newer_assoc : (a b c : Option Value) → newer (newer a b) c ≡ newer a (newer b c)
newer_assoc none b c = refl
newer_assoc (some v) b c = refl

newer-none : (a : Option Value) → newer a none ≡ a
newer-none none = refl
newer-none (some v) = refl

cell_value-append :
    (column : Str) (row : ℕ) (first last : Sheet)
    → cell_value column row (first ++ last)
      ≡ newer (cell_value column row last) (cell_value column row first)
unfolding cell_value
cell_value-append column row [] last = sym (newer-none (cell_value column row last))
cell_value-append column row (w ∷ first) last =
    rw (cell_value-append column row first last)
      (newer_assoc (cell_value column row last) (cell_value column row first) _)

-- A row holds nothing in the cells of other rows.
fill_row-other :
    (column : Str) (row other i : ℕ) (values : List Value)
    → (row == other) ≡ false
    → cell_value column other (fill_row row i values) ≡ none
unfolding cell_value fill_row
fill_row-other column row other i [] h = refl
fill_row-other column row other i (v ∷ values) h =
    rw (fill_row-other column row other (i + 1) values h, h) (ground arith)

fill_row-before :
    (row i c : ℕ) (values : List Value)
    → i + length values ≤ 702
    → c < i
    → cell_value (column_name c) row (fill_row row i values) ≡ none
unfolding cell_value fill_row
fill_row-before row i c [] h k = refl
fill_row-before row i c (v ∷ values) h k =
    rw
      (
        fill_row-before row (i + 1) c values (omega (arith, h)) (omega (arith, k)),
        str_eq-column_name i c (omega (arith, h)) (omega (arith, h, k)),
      )
      (ground (arith, k))

-- The d-th value of a row is in the d-th of its columns.
fill_row-cell :
    (row i d c : ℕ) (values : List Value)
    → i + length values ≤ 702
    → c < 702
    → i + d ≡ c
    → cell_value (column_name c) row (fill_row row i values) ≡ get_elem? values d
unfolding cell_value fill_row
fill_row-cell row i d c [] h k e = refl
fill_row-cell row i zero c (v ∷ values) h k e =
    rw
      (
        fill_row-before row (i + 1) c values (omega (arith, h)) (omega (arith, e)),
        str_eq-column_name i c (omega (arith, h)) k,
      )
      (ground (arith, e))
fill_row-cell row i (suc d) c (v ∷ values) h k e =
    rw
      (
        fill_row-cell row (i + 1) d c values (omega (arith, h)) k (omega (arith, e)),
        str_eq-column_name i c (omega (arith, h)) k,
      )
      (other (get_elem? values d) (i == c && (row == row)) (ground (arith, e)))
  where
    other :
        (found : Option Value) (b : Bool)
        → b ≡ false
        → newer found (if b then some v else none) ≡ found
    other found b e = rw e (newer-none found)

-- Rows that hold values in their first columns.
unfoldable plain_rows {ℓ} : {R : Type ℓ} → (R → List Value) → ℕ → List R → Sheet
plain_rows values row [] = []
plain_rows values row (r ∷ records) =
    fill_row row 0 (values r) ++ plain_rows values (row + 1) records

-- Rows from a later one on hold nothing in the cells of an earlier one.
plain_rows-later {ℓ} :
    {R : Type ℓ} (values : R → List Value) (column : Str) (row other : ℕ) (records : List R)
    → other < row
    → cell_value column other (plain_rows values row records) ≡ none
unfolding plain_rows cell_value
plain_rows-later values column row other [] h = refl
plain_rows-later values column row other (r ∷ records) h = rw (
  cell_value-append column other (fill_row row 0 (values r)) (plain_rows values (row + 1) records),
  plain_rows-later values column (row + 1) other records (omega (arith, h)),
  fill_row-other column row other 0 (values r) (ground (arith, h)),
)

-- The records with at most 702 values each are one to a row: the n-th record's d-th value is what the
-- d-th cell of the n-th row holds, counted from the row where the records start.
plain_rows-cell {ℓ} :
    {R : Type ℓ} (values : R → List Value) (start n d row : ℕ) (records : List R) (r : R)
    → ((s : R) → length (values s) ≤ 702)
    → d < 702
    → start + n ≡ row
    → get_elem? records n ≡ some r
    → cell_value (column_name d) row (plain_rows values start records) ≡ get_elem? (values r) d
unfolding plain_rows
plain_rows-cell values start n d row [] r h k at_row e = cc
plain_rows-cell values start zero d row (s ∷ records) r h k at_row e =
    rw
      (
        cell_value-append (column_name d) row (fill_row start 0 (values s))
            (plain_rows values (start + 1) records),
        plain_rows-later values (column_name d) (start + 1) row records (omega (arith, at_row)),
      )
      (here (option_same e))
  where
    option_same : some s ≡ some r → s ≡ r
    option_same e = cc

    here :
        s ≡ r
        → cell_value (column_name d) row (fill_row start 0 (values s)) ≡ get_elem? (values r) d
    here same =
        let first : start ≡ row = omega (arith, at_row) in
        rw (← first, ← same)
          (fill_row-cell start 0 d d (values s) (omega (arith, h s)) k (omega arith))
plain_rows-cell values start (suc n) d row (s ∷ records) r h k at_row e =
    let rest = plain_rows-cell values (start + 1) n d row records r h k (omega (arith, at_row)) e in
    rw
      (
        cell_value-append (column_name d) row (fill_row start 0 (values s))
            (plain_rows values (start + 1) records),
        fill_row-other (column_name d) start row 0 (values s) (ground (arith, at_row)),
        newer-none (cell_value (column_name d) row (plain_rows values (start + 1) records)),
      )
      rest

length-map {ℓ} : {A B : Type ℓ} (f : A → B) (xs : List A) → length (map f xs) ≡ length xs
length-map f [] = refl
length-map f (x ∷ xs) = omega (arith, length-map f xs)

abbrev pub value_of_cell : Str × Value → Value
value_of_cell c = c.1

-- The columns that are named are the i-th and those behind it, in order.
abbrev pub IsLettered : ℕ → List (Str × Value) → Type 0
IsLettered i [] = Unit
IsLettered i (c ∷ cells) = (c.0 ≡ column_name i) × IsLettered (i + 1) cells

write_cells-fill_row :
    (row i : ℕ) (cells : List (Str × Value))
    → IsLettered i cells
    → write_cells row cells ≡ fill_row row i (map value_of_cell cells)
unfolding write_cells fill_row
write_cells-fill_row row i [] h = refl
write_cells-fill_row row i ((column, v) ∷ cells) (h, hs) =
    rw (h, write_cells-fill_row row (i + 1) cells hs)

fill_rows-plain_rows {ℓ} :
    {R : Type ℓ} (values : R → List (Str × Value)) (row : ℕ) (records : List R)
    → ((s : R) → IsLettered 0 (values s))
    → fill_rows values row records
      ≡ plain_rows (λ (s : R). map value_of_cell (values s)) row records
unfolding fill_rows plain_rows
fill_rows-plain_rows values row [] h = refl
fill_rows-plain_rows values row (r ∷ records) h =
    rw
      (write_cells-fill_row row 0 (values r) (h r), fill_rows-plain_rows values (row + 1) records h)

-- A table of at most 702 columns, whose values are written to the columns "A", "B" and so on, has its names
-- in the first row, and the n-th record's values in the row n + 2.
pub table_sheet-cell {ℓ} :
    {R : Type ℓ} (headers : List Str) (values : R → List (Str × Value)) (records : List R) (n d : ℕ)
    (r : R)
    → length headers ≤ 702
    → ((s : R) → length (map value_of_cell (values s)) ≤ 702)
    → ((s : R) → IsLettered 0 (values s))
    → get_elem? records n ≡ some r
    → d < 702
    → (cell_value (column_name d) 1 (table_sheet headers values records)
        ≡ get_elem? (map text headers) d)
      × (cell_value (column_name d) (n + 2) (table_sheet headers values records)
          ≡ get_elem? (map value_of_cell (values r)) d)
unfolding table_sheet
table_sheet-cell {R} headers values records n d r narrow h lettered e k =
    let plain = λ (s : R). map value_of_cell (values s) in
    let names = fill_row 1 0 (map text headers) in
    let rows = plain_rows plain 2 records in
    rw (fill_rows-plain_rows values 2 records lettered) (
      rw
          (
            cell_value-append (column_name d) 1 names rows,
            plain_rows-later plain (column_name d) 2 1 records (omega arith),
          )
          (fill_row-cell 1 0 d d (map text headers) (omega (arith, length-map text headers, narrow))
            k (omega arith)),
      rw
          (
            cell_value-append (column_name d) (n + 2) names rows,
            fill_row-other (column_name d) 1 (n + 2) 0 (map text headers) (ground arith),
            newer-none (cell_value (column_name d) (n + 2) rows),
          )
          (plain_rows-cell plain 2 n d (n + 2) records r h k (omega arith) e),
    )
