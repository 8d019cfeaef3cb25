-- ===== src/Order/Bonus/Paging.antt =====
-- Which pages of bonus orders are fetched.
use report_api.Prelude.{
  ℕ, ◌+◌, ◌≤◌, ◌<◌, ◌≡◌, false, some, List, [], ◌∷◌, length, length-append, arith,
}
use report_api.Go.Result.{Result, ok}
use report_api.Go.Text.{Str}
use report_api.Callback.Http.{Log}
use report_api.Order.Pages.Loop.{IsPaged, concat, fetch_pages-Ends, fetch_pages-Fetched}
use report_api.Order.Bonus.{Service, Query, BonusOrder, fetch_page, fetch_bonus_orders, is_last}

is_last-more :
    (page_no : ℕ) (new : List BonusOrder) (next : Str)
    → is_last page_no new next ≡ false
    → page_no < 100
unfolding is_last
is_last-more page_no new next h = ground arith

module _ (jd : Service) (q : Query) where
  fetch_page-length :
      (page_no : ℕ) (from : Str) (log : Log)
      → length (fetch_page jd q page_no from log).1 ≡ length log + 1
  unfolding fetch_page
  fetch_page-length page_no from log = omega (arith, length-append log (_ ∷ []))

  -- Fetching the pages of a window always ends, after at most 100 requests.
  pub fetch_bonus_orders-ends :
      (log : Log)
      → (result : Result (List BonusOrder)) × (log' : Log) × (fetch_bonus_orders jd q log
          ≡ some (result, log'))
        × (length log' ≤ length log + 100)
  unfolding fetch_bonus_orders
  fetch_bonus_orders-ends log =
      fetch_pages-Ends (fetch_page jd q) is_last fetch_page-length is_last-more 100 1 [] [] log
        (omega arith) (omega arith)

  -- Orders that are returned are those of pages fetched one after the other from page 1 on: each page
  -- is asked for with the sort value that the page before it named, and the loop goes on behind exactly
  -- the pages that name one, hold an order and are before the hundredth.
  pub fetch_bonus_orders-IsPaged :
      (log : Log) {all : List BonusOrder} {log' : Log}
      → fetch_bonus_orders jd q log ≡ some (ok all, log')
      → (pages : List (List BonusOrder)) × IsPaged (fetch_page jd q) is_last 1 [] log pages log'
        × (all ≡ concat pages)
  unfolding fetch_bonus_orders
  fetch_bonus_orders-IsPaged log h = fetch_pages-Fetched (fetch_page jd q) is_last 100 1 [] [] log h
