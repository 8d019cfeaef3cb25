-- ===== src/Order/Windows.antt =====
-- The loop over a period of time, one request for each window: `for currentTime < endTime`.
pub mod Cover
use report_api.Prelude.{
  ℕ, zero, suc, ◌≡◌, refl, Bool, true, false, Option, none, some, List, [], ◌++◌, if◌then◌else◌,
}
use report_api.Prelude.Int.{ℤ, pos, ◌+ℤ◌, ltb_ℤ}
use report_api.Go.Result.{Result, ok, err, panic}

-- `intervalEndTime := currentTime + width`, or the end of the period where that is earlier.
unfoldable pub window_end : ℕ → ℤ → ℤ → ℤ
window_end width current end =
    if ltb_ℤ end (current +ℤ pos width) then end else current +ℤ pos width

-- `fetch` is `none` where it does not return.
module _ {S O : Type 0} (fetch : ℤ → ℤ → S → Option (Result (List O) × S)) (width : ℕ) where
  -- The orders so far grow by those of each window, and the first failure ends the loop. `none` is a
  -- loop that has run out of fuel, or a `fetch` that does not return.
  unfoldable pub by_window : ℕ → ℤ → ℤ → List O → S → Option (Result (List O) × S)
  unfolding window_end
  by_window zero current end orders s = if ltb_ℤ current end then none else some (ok orders, s)
  by_window (suc fuel) current end orders s = elim (ltb_ℤ current end) [
    | false ↦ some (ok orders, s)
    | true ↦
        let until = window_end width current end in
        elim (fetch current until s) [
          | none ↦ none
          | some (ok new, s') ↦ by_window fuel until end (orders ++ new) s'
          | some (err e, s') ↦ some (err e, s')
          | some (panic p, s') ↦ some (panic p, s')
        ]
  ]
