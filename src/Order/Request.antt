-- ===== src/Order/Request.antt =====
-- The handlers `GetJdOrder` and `GetJdBonusOrder` of service/jd_order.go.
pub mod Replies
use report_api.Prelude.{
  ℕ, zero, suc, ◌+◌, ◌/◌, Bool, true, false, ◌&&◌, ◌||◌, ◌==◌, String, Option, none, some, List, [],
  ◌∷◌, length, leb, if◌then◌else◌,
}
use report_api.Prelude.Int.{ℤ, pos, negsuc}
use report_api.Go.Result.{Error, Result, ok, err, panic}
use report_api.Go.Returns.{Returns, failed, returned}
use report_api.Go.Strconv.{atoi, parse_int_value}
use report_api.Go.Text.{Str, codes, utf8, str_eq}
use report_api.Go.Text.Replace.{replace_all}
use report_api.Callback.Http.{Log}
use report_api.Order.Plain.{PlainService, PlainOrder, orders_of_period}
use report_api.Order.Bonus.{Service, BonusOrder, Query}
use report_api.Order.Bonus.Period.{bonus_orders}
use report_api.Order.Export.{
  Book, orders_book, export_jd_orders_to_excel, bonus_orders_book, export_jd_bonus_orders_to_excel,
}

-- `stuck` is a loop that has run out of fuel.
pub data OrderReply : Type 0 where
  missing_times : OrderReply
  invalid_start : OrderReply
  invalid_end : OrderReply
  not_fetched : Error → OrderReply
  no_orders : OrderReply
  not_exported : Error → OrderReply
  exported : Str → Book → OrderReply
  fault stuck : OrderReply

unfoldable pub order_status : OrderReply → ℕ
order_status missing_times = 400
order_status invalid_start = 400
order_status invalid_end = 400
order_status (not_fetched e) = 500
order_status no_orders = 200
order_status (not_exported e) = 500
order_status (exported path book) = 200
order_status fault = 500
order_status stuck = 0

-- The parameters of a request: `ctx.Query` yields an empty text for one that is missing, and
-- `ctx.DefaultQuery` its default for one that is not given.
pub record OrderForm : Type 0 where
  pub start_time : Str
  pub end_time : Str
  pub page_size : Option Str
  pub order_type : Str

unfoldable pub given_or : Str → Option Str → Str
given_or default none = default
given_or default (some given) = given

unfoldable pub saved_reply : Str → Book → Option Error → OrderReply
saved_reply path book none = exported path book
saved_reply path book (some e) = not_exported e

-- The code behind the loop over the period.
unfoldable pub exported_reply :
    {O : Type 0}
    → Str
    → (List O → Book)
    → (List O → Str → Option Error)
    → Option (Result (List O) × Log)
    → Log
    → OrderReply × Log
unfolding saved_reply
exported_reply path book export none log = (stuck, log)
exported_reply path book export (some (err e, log')) log = (not_fetched e, log')
exported_reply path book export (some (panic p, log')) log = (fault, log')
exported_reply path book export (some (ok [], log')) log = (no_orders, log')
exported_reply path book export (some (ok (o ∷ os), log')) log =
    (saved_reply path (book (o ∷ os)) (export (o ∷ os) path), log')

-- "24:00:00" is no time of the day, and becomes the day's last second.
unfoldable pub end_time_text : Str → Str
unfolding replace_all
end_time_text s = replace_all s (codes "24:00:00") (codes "23:59:59")

has_zero : Str → Bool
has_zero [] = false
has_zero (c ∷ s) = c == b'0' || has_zero s

-- `t.UnixNano() / 1e6`, for a time that `UnixNano` can show; division drops the fraction.
milliseconds : ℤ → ℤ
milliseconds (pos n) = pos (n / 1_000_000)
milliseconds (negsuc n) = negative_of ((n + 1) / 1_000_000)
  where
    negative_of : ℕ → ℤ
    negative_of zero = pos 0
    negative_of (suc n) = negsuc n

-- Milliseconds or a date, which `time.Parse` reads: a text of at most 13 bytes with the digit 0 is read as a number.
unfoldable pub time_of_text : (Str → Returns ℤ) → Str → Option ℤ
unfolding has_zero milliseconds atoi utf8
time_of_text parse_time s =
    if leb (length (utf8 s)) 13 && has_zero s
    then atoi s
    else (elim (parse_time s) [ failed e ↦ none | returned t ↦ some (milliseconds t) ])

unfoldable pub bonus_query : Option Str → Option Str → Str → ℤ → ℤ → Query
unfolding parse_int_value given_or
bonus_query page_size opt_type activity_id start end = record {
  opt_type = parse_int_value (given_or (codes "1") opt_type);
  start_time = start;
  end_time = end;
  page_size = parse_int_value (given_or (codes "100") page_size);
  activity_id = activity_id;
}

-- `time.Parse("2006-01-02 15:04:05", s)`, as nanoseconds since 1970, and `SaveAs`.
module _ (parse_time : Str → Returns ℤ) (save_as : Str → Book → Option Error) where
  -- The code behind the two calls of `time.Parse`, of which the first is checked first.
  unfoldable pub period_reply :
      PlainService → OrderForm → Returns ℤ → Returns ℤ → Log → OrderReply × Log
  unfolding exported_reply orders_of_period parse_int_value given_or export_jd_orders_to_excel
  period_reply jd form (failed e) end log = (invalid_start, log)
  period_reply jd form (returned start) (failed e) log = (invalid_end, log)
  period_reply jd form (returned start) (returned end) log =
      let size = parse_int_value (given_or (codes "200") form.page_size) in
      exported_reply (codes "jd_orders.xlsx") orders_book (export_jd_orders_to_excel save_as)
        (orders_of_period jd size (parse_int_value form.order_type) start end log) log

  unfoldable pub get_jd_order : PlainService → OrderForm → Log → OrderReply × Log
  unfolding period_reply end_time_text str_eq
  get_jd_order jd form log =
      if str_eq form.start_time [] || str_eq form.end_time []
      then (missing_times, log)
      else period_reply jd form (parse_time form.start_time)
          (parse_time (end_time_text form.end_time)) log

  unfoldable pub bonus_reply :
      Service → (ℤ → ℤ → Query) → Option ℤ → Option ℤ → Log → OrderReply × Log
  unfolding exported_reply bonus_orders export_jd_bonus_orders_to_excel
  bonus_reply jd query_of none end log = (invalid_start, log)
  bonus_reply jd query_of (some start) none log = (invalid_end, log)
  bonus_reply jd query_of (some start) (some end) log =
      exported_reply (codes "jd_bonus_orders.xlsx") bonus_orders_book
        (export_jd_bonus_orders_to_excel save_as) (bonus_orders jd (query_of start end) log) log

  unfoldable pub get_jd_bonus_order :
      Service → Str → Str → Option Str → Option Str → Str → Log → OrderReply × Log
  unfolding bonus_reply time_of_text bonus_query str_eq
  get_jd_bonus_order jd start_time end_time page_size opt_type activity_id log =
      if str_eq start_time [] || str_eq end_time []
      then (missing_times, log)
      else bonus_reply jd (bonus_query page_size opt_type activity_id)
          (time_of_text parse_time start_time) (time_of_text parse_time end_time) log
