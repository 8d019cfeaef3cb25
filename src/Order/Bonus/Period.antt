-- ===== src/Order/Bonus/Period.antt =====
-- The loop of `GetJdBonusOrder` over its period, in windows of 600 seconds.
use report_api.Prelude.{◌≡◌, Option, some, List, [], arith}
use report_api.Prelude.Int.{ℤ, distance}
use report_api.Go.Result.{Result}
use report_api.Callback.Http.{Log}
use report_api.Order.Windows.{by_window}
use report_api.Order.Windows.Cover.{IsCover, fetch_each, IsReturning, by_window-IsCover}
use report_api.Order.Bonus.Paging.{fetch_bonus_orders-ends}
use report_api.Order.Bonus.{Service, Query, BonusOrder, fetch_bonus_orders}

module _ (jd : Service) (q : Query) where
  -- The pages of one window.
  unfoldable pub fetch_window : ℤ → ℤ → Log → Option (Result (List BonusOrder) × Log)
  unfolding fetch_bonus_orders
  fetch_window current until log =
      fetch_bonus_orders jd (record q { start_time = current; end_time = until }) log

  fetch_window-IsReturning : IsReturning fetch_window
  unfolding fetch_window
  fetch_window-IsReturning current until log =
      let (result, log', ran, _) =
        fetch_bonus_orders-ends jd (record q { start_time = current; end_time = until }) log in
      ((result, log'), ran)

  -- The times are milliseconds, and the period's length is fuel enough.
  unfoldable pub bonus_orders : Log → Option (Result (List BonusOrder) × Log)
  unfolding fetch_window by_window
  bonus_orders log =
      by_window fetch_window 600000 (distance q.start_time q.end_time) q.start_time q.end_time []
        log

  -- The loop ends, and it has asked for windows that follow one another from the start of the period to
  -- its end, none empty and none longer than 600 seconds, up to the first that fails; its orders are
  -- those of the windows in order.
  pub bonus_orders-IsCover :
      (log : Log)
      → (ws : List (ℤ × ℤ)) × (out : Result (List BonusOrder) × Log) × IsCover 600000 q.end_time
          q.start_time ws
        × (bonus_orders log ≡ some out)
        × (fetch_each fetch_window ws [] log ≡ some out)
  unfolding bonus_orders
  bonus_orders-IsCover log =
      by_window-IsCover fetch_window 600000 _ q.start_time q.end_time log (omega arith)
        (omega arith) fetch_window-IsReturning
