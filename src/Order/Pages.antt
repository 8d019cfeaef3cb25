-- ===== src/Order/Pages.antt =====
-- The loop over the pages of service/jd_order.go: `fetchJdOrders` and `fetchJdBonusOrdersWithPagination`.
pub mod Loop
use report_api.Prelude.{
  ℕ, zero, suc, ◌+◌, Bool, true, false, Option, none, some, List, [], ◌∷◌, ◌++◌,
}
use report_api.Go.Result.{Result, ok, err, panic}
use report_api.Callback.Http.{Log}

-- `fetch` yields the orders of a page and what the next request takes from it, and `is_last` says whether
-- the loop stops behind the page.
module _ {O N : Type 0} (fetch : ℕ → N → Log → Result (List O × N) × Log)
    (is_last : ℕ → List O → N → Bool) where
  -- The loop from one page on. `none` is a loop that has run out of fuel.
  unfoldable pub fetch_pages : ℕ → ℕ → N → List O → Log → Option (Result (List O) × Log)
  fetch_pages zero page_no from orders log = none
  fetch_pages (suc fuel) page_no from orders log =
      let (page, log') = fetch page_no from log in
      elim page [
        | err e ↦ some (err e, log')
        | panic p ↦ some (panic p, log')
        | ok (new, next) ↦ elim (is_last page_no new next) [
          | true ↦ some (ok (orders ++ new), log')
          | false ↦ fetch_pages fuel (page_no + 1) next (orders ++ new) log'
        ]
      ]
