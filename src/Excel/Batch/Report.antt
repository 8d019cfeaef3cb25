-- ===== src/Excel/Batch/Report.antt =====
-- What a batch writes and sends, entry by entry.
use report_api.Prelude.{
  ℕ, ◌+◌, ◌≡◌, refl, sym, ◌∙◌, Option, none, some, List, [], ◌∷◌, ◌++◌, length, append_assoc,
  append-nil, Option-cases, inl, inr, arith,
}
use report_api.Excel.{Row}
use report_api.Excel.Sheet.{Sheet}
use report_api.Excel.Batch.{Batch, process_entry, process_rows}
use report_api.Callback.Http.{Log}

-- The rows that are not passed over.
unfoldable pub entries : {E : Type 0} → (Row → Option E) → List Row → List E
entries entry_of [] = []
entries entry_of (row ∷ rows) = elim (entry_of row) [
  | none ↦ entries entry_of rows
  | some entry ↦ entry ∷ entries entry_of rows
]

module _ {E A : Type 0} (ask : E → Log → A × Log) (cells : ℕ → E → A → Sheet) where
  -- The cells of each entry, in the rows from `row` on.
  abbrev pub report : ℕ → List E → Log → Sheet
  report row [] log = []
  report row (entry ∷ rest) log =
      cells row entry (ask entry log).0 ++ report (row + 1) rest (ask entry log).1

-- The requests sent once each entry was asked for in turn.
abbrev pub asked : {E A : Type 0} → (E → Log → A × Log) → List E → Log → Log
asked ask [] log = log
asked ask (entry ∷ rest) log = asked ask rest (ask entry log).1

module _ {E A : Type 0} (entry_of : Row → Option E) (ask : E → Log → A × Log)
    (cells : ℕ → E → A → Sheet) where
  -- Each entry has its cells in a row of its own, the rows follow one another, and each entry is asked
  -- for once, in order.
  pub process_rows-report :
      (rows : List Row) (b : Batch)
      → let b' = process_rows entry_of ask cells rows b in
        (b'.row_index ≡ b.row_index + length (entries entry_of rows))
        × (b'.sheet ≡ b.sheet ++ report ask cells b.row_index (entries entry_of rows) b.sent)
        × (b'.sent ≡ asked ask (entries entry_of rows) b.sent)
  unfolding process_rows process_entry entries
  process_rows-report [] b = (omega arith, sym (append-nil b.sheet), refl)
  process_rows-report (row ∷ rows) b = elim (Option-cases (entry_of row)) [
    | inl e ↦ rw (e, process_rows, entries) (process_rows-report rows b)
    | inr (entry, e) ↦
        let (index, sheet, sent) =
          process_rows-report rows (process_entry entry_of ask cells entry b) in
        rw (e, process_rows, entries) (omega (arith, index), sheet ∙ append_assoc b.sheet _ _, sent)
  ]
