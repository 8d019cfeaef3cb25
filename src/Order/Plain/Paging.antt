-- ===== src/Order/Plain/Paging.antt =====
-- Which pages of orders are fetched, and for which hours.
use report_api.Prelude.{
  ℕ, ◌+◌, ◌≤◌, ◌<◌, ◌≡◌, Bool, true, false, some, List, [], ◌∷◌, length, length-append, ltb-true,
  arith,
}
use report_api.Prelude.Int.{ℤ}
use report_api.Go.Result.{Result, ok}
use report_api.Go.Returns.{Returns, failed, returned, to_result}
use report_api.Go.Text.{Str}
use report_api.Callback.Http.{Log}
use report_api.Order.Client.{jd_http_get}
use report_api.Order.Pages.Loop.{IsPaged, concat, fetch_pages-Ends, fetch_pages-Fetched}
use report_api.Order.Windows.Cover.{IsCover, fetch_each, IsReturning, by_window-IsCover}
use report_api.Order.Plain.{
  PlainService, PlainOrder, fetch_jd_orders_page, fetch_round, fetch_jd_orders, fetch_hour,
  orders_of_period, is_last_page,
}

is_last_page-more :
    (page_index : ℕ) (new : List PlainOrder) (has_more : Bool)
    → is_last_page page_index new has_more ≡ false
    → page_index < 100
unfolding is_last_page
is_last_page-more page_index new has_more h = ground arith

module _ (jd : PlainService) (page_size order_type : ℤ) where
  fetch_round-length :
      (start_time end_time : Str) (page_index : ℕ) (from : Bool) (log : Log)
      → length (fetch_round jd page_size order_type start_time end_time page_index from log).1
        ≡ length log + 1
  unfolding fetch_round fetch_jd_orders_page jd_http_get
  fetch_round-length start_time end_time page_index from log =
      omega (arith, length-append log (_ ∷ []))

  -- Fetching the orders of an hour always ends, after at most 100 requests.
  pub fetch_jd_orders-ends :
      (start_time end_time : Str) (log : Log)
      → (result : Result (List PlainOrder)) × (log' : Log) × (fetch_jd_orders jd page_size
            order_type start_time end_time log
          ≡ some (result, log'))
        × (length log' ≤ length log + 100)
  unfolding fetch_jd_orders
  fetch_jd_orders-ends start_time end_time log =
      fetch_pages-Ends (fetch_round jd page_size order_type start_time end_time) is_last_page
        (fetch_round-length start_time end_time) is_last_page-more 100 1 true [] log (omega arith)
        (omega arith)

  -- Pages that were fetched one after the other, from a number on. The last of them is one that has no
  -- more behind it, or the hundredth; every other one has more behind it and comes before the hundredth.
  pub data PlainPages (start_time end_time : Str)
      : ℕ → Log → List (List PlainOrder) → Log → Type 0 where
    no_more :
        {page_index : ℕ} {log log' : Log} {new : List PlainOrder}
        → fetch_jd_orders_page jd page_size order_type start_time end_time page_index log
          ≡ (returned (new, false), log')
        → PlainPages start_time end_time page_index log (new ∷ []) log'
    hundredth :
        {page_index : ℕ} {log log' : Log} {new : List PlainOrder}
        → page_index ≡ 100
        → fetch_jd_orders_page jd page_size order_type start_time end_time page_index log
          ≡ (returned (new, true), log')
        → PlainPages start_time end_time page_index log (new ∷ []) log'
    further :
        {page_index : ℕ} {log log' log'' : Log} {new : List PlainOrder}
        {pages : List (List PlainOrder)}
        → page_index < 100
        → fetch_jd_orders_page jd page_size order_type start_time end_time page_index log
          ≡ (returned (new, true), log')
        → PlainPages start_time end_time (page_index + 1) log' pages log''
        → PlainPages start_time end_time page_index log (new ∷ pages) log''

  round_page :
      (start_time end_time : Str) (page_index : ℕ) (from next : Bool) (log log' : Log)
      (new : List PlainOrder)
      → fetch_round jd page_size order_type start_time end_time page_index from log
        ≡ (ok (new, next), log')
      → fetch_jd_orders_page jd page_size order_type start_time end_time page_index log
        ≡ (returned (new, next), log')
  unfolding fetch_round
  round_page start_time end_time page_index from next log log' new h =
      go (fetch_jd_orders_page jd page_size order_type start_time end_time page_index log) h
    where
      go :
          (page : Returns (List PlainOrder × Bool) × Log)
          → Path
              (Result (List PlainOrder × Bool) × Log)
              (to_result page.0, page.1)
              (ok (new, next), log')
          → page ≡ (returned (new, next), log')
      go (failed e, l) h = cc
      go (returned p, l) h = cc

  final_page :
      (start_time end_time : Str) (page_index : ℕ) (next : Bool) (log log' : Log)
      (new : List PlainOrder)
      → page_index ≤ 100
      → fetch_jd_orders_page jd page_size order_type start_time end_time page_index log
        ≡ (returned (new, next), log')
      → is_last_page page_index new next ≡ true
      → PlainPages start_time end_time page_index log (new ∷ []) log'
  unfolding is_last_page
  final_page start_time end_time page_index false log log' new b h e = no_more h
  final_page start_time end_time page_index true log log' new b h e =
      hundredth (omega (arith, ltb-true 100 (page_index + 1) e, b)) h

  further_page :
      (start_time end_time : Str) (page_index : ℕ) (next : Bool) (log log' log'' : Log)
      (new : List PlainOrder) (pages : List (List PlainOrder))
      → fetch_jd_orders_page jd page_size order_type start_time end_time page_index log
        ≡ (returned (new, next), log')
      → is_last_page page_index new next ≡ false
      → PlainPages start_time end_time (page_index + 1) log' pages log''
      → PlainPages start_time end_time page_index log (new ∷ pages) log''
  unfolding is_last_page
  further_page start_time end_time page_index false log log' log'' new pages h e p = cc
  further_page start_time end_time page_index true log log' log'' new pages h e p =
      further (is_last_page-more page_index new true e) h p

  paged-PlainPages :
      (start_time end_time : Str) {page_index : ℕ} {from : Bool} {log log' : Log}
      {pages : List (List PlainOrder)}
      → page_index ≤ 100
      → IsPaged
          (fetch_round jd page_size order_type start_time end_time)
          is_last_page
          page_index
          from
          log
          pages
          log'
      → PlainPages start_time end_time page_index log pages log'
  paged-PlainPages start_time end_time b (IsPaged.final h e) =
      final_page start_time end_time _ _ _ _ _ b (round_page start_time end_time _ _ _ _ _ _ h) e
  paged-PlainPages start_time end_time b (IsPaged.more h e p) =
      further_page start_time end_time _ _ _ _ _ _ _ (round_page start_time end_time _ _ _ _ _ _ h)
        e (paged-PlainPages start_time end_time (omega (arith, is_last_page-more _ _ _ e)) p)

  -- Orders that are returned are those of the pages from page 1 on, one request for each, in order. The
  -- last page is one that has no more behind it, or the hundredth; the others have more behind them.
  pub fetch_jd_orders-IsPaged :
      (start_time end_time : Str) (log : Log) {all : List PlainOrder} {log' : Log}
      → fetch_jd_orders jd page_size order_type start_time end_time log ≡ some (ok all, log')
      → (pages : List (List PlainOrder)) × PlainPages start_time end_time 1 log pages log'
        × (all ≡ concat pages)
  unfolding fetch_jd_orders
  fetch_jd_orders-IsPaged start_time end_time log h =
      let (pages, paged, whole) =
        fetch_pages-Fetched (fetch_round jd page_size order_type start_time end_time) is_last_page
          100 1 true [] log h in
      (pages, paged-PlainPages start_time end_time (omega arith) paged, whole)

  fetch_hour-IsReturning : IsReturning (fetch_hour jd page_size order_type)
  unfolding fetch_hour
  fetch_hour-IsReturning current until log =
      let (result, log', ran, _) =
        fetch_jd_orders-ends (jd.format_time current) (jd.format_time until) log in
      ((result, log'), ran)

  -- The loop over a period ends, and it has asked for windows that follow one another from the start of
  -- the period to its end, none empty and none longer than an hour, up to the first that fails; its
  -- orders are those of the windows in order.
  pub orders_of_period-IsCover :
      (start end : ℤ) (log : Log)
      → (ws : List (ℤ × ℤ)) × (out : Result (List PlainOrder) × Log) × IsCover 3_600_000_000_000 end
          start ws
        × (orders_of_period jd page_size order_type start end log ≡ some out)
        × (fetch_each (fetch_hour jd page_size order_type) ws [] log ≡ some out)
  unfolding orders_of_period
  orders_of_period-IsCover start end log =
      by_window-IsCover (fetch_hour jd page_size order_type) 3_600_000_000_000 _ start end log
        (omega arith) (omega arith) fetch_hour-IsReturning
