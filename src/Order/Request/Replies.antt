-- ===== src/Order/Request/Replies.antt =====
-- What the replies of the two order handlers say.
use report_api.Prelude.{
  ◌≡◌, ◌≢◌, refl, sym, ◌∙◌, inl, inr, Bool, true, false, ◌||◌, if◌then◌else◌, Bool-cases, Option,
  none, some, List, [], ◌∷◌, arith,
}
use report_api.Prelude.Int.{ℤ}
use report_api.Go.Result.{Error, Result, ok, err, panic}
use report_api.Go.Returns.{Returns, failed, returned}
use report_api.Go.Strconv.{parse_int_value}
use report_api.Go.Text.{Str, codes, str_eq}
use report_api.Callback.Http.{Log}
use report_api.Order.Windows.Cover.{IsCover, fetch_each}
use report_api.Order.Plain.{PlainService, PlainOrder, fetch_hour, orders_of_period}
use report_api.Order.Plain.Paging.{orders_of_period-IsCover}
use report_api.Order.Bonus.{Service, Query}
use report_api.Order.Bonus.Period.{bonus_orders, bonus_orders-IsCover}
use report_api.Order.Export.{
  Book, orders_book, export_jd_orders_to_excel, bonus_orders_book, export_jd_bonus_orders_to_excel,
}
use report_api.Order.Request.{
  OrderReply, missing_times, exported, end_time_text, bonus_query, order_status, OrderForm,
  given_or, saved_reply, exported_reply, period_reply, bonus_reply, get_jd_order, time_of_text,
  get_jd_bonus_order,
}

guarded :
    (missing : Bool) (log : Log) (rest : OrderReply × Log)
    → order_status rest.0 ≢ 0
    → order_status (if missing then (missing_times, log) else rest).0 ≢ 0
unfolding order_status
guarded true log rest h = omega arith
guarded false log rest h = h

missing_not_exported : {path : Str} {book : Book} → missing_times ≡ exported path book → ⊥
missing_not_exported h = cc

some-injective {ℓ} : {A : Type ℓ} {a b : A} → some a ≡ some b → a ≡ b
some-injective h = cc

saved_reply-status :
    (path : Str) (book : Book) (error : Option Error)
    → order_status (saved_reply path book error) ≢ 0
unfolding saved_reply order_status
saved_reply-status path book none = omega arith
saved_reply-status path book (some e) = omega arith

-- A loop that ends is replied to.
exported_reply-status :
    {O : Type 0} (path : Str) (book : List O → Book) (export : List O → Str → Option Error)
    (result : Result (List O)) (sent log : Log)
    → order_status (exported_reply path book export (some (result, sent)) log).0 ≢ 0
unfolding exported_reply order_status
exported_reply-status path book export (err e) sent log = omega arith
exported_reply-status path book export (panic p) sent log = omega arith
exported_reply-status path book export (ok []) sent log = omega arith
exported_reply-status path book export (ok (o ∷ os)) sent log =
    saved_reply-status path (book (o ∷ os)) (export (o ∷ os) path)

pub saved_reply_exported :
    (path : Str) (book : Book) (error : Option Error) {path' : Str} {book' : Book}
    → saved_reply path book error ≡ exported path' book'
    → (path' ≡ path) × (book' ≡ book) × (error ≡ none)
unfolding saved_reply
saved_reply_exported path book none h = (cc, cc, refl)
saved_reply_exported path book (some e) h = cc

exported_reply-ended :
    {O : Type 0} (path : Str) (book : List O → Book) (export : List O → Str → Option Error)
    (run : Option (Result (List O) × Log)) (log : Log) {out : Result (List O) × Log}
    → run ≡ some out
    → order_status (exported_reply path book export run log).0 ≢ 0
exported_reply-ended path book export run log {out} e =
    rw e (exported_reply-status path book export out.0 out.1 log)

-- An exported workbook holds the orders of the loop.
exported_reply_exported :
    {O : Type 0} (path : Str) (book : List O → Book) (export : List O → Str → Option Error)
    (run : Option (Result (List O) × Log)) (log : Log) {path' : Str} {b : Book}
    → (exported_reply path book export run log).0 ≡ exported path' b
    → (orders : List O) × (path' ≡ path)
      × (b ≡ book orders)
      × (export orders path ≡ none)
      × (run ≡ some (ok orders, (exported_reply path book export run log).1))
unfolding exported_reply
exported_reply_exported path book export none log h = cc
exported_reply_exported path book export (some (err e, log')) log h = cc
exported_reply_exported path book export (some (panic p, log')) log h = cc
exported_reply_exported path book export (some (ok [], log')) log h = cc
exported_reply_exported path book export (some (ok (o ∷ os), log')) log h =
    let (p, b, e) = saved_reply_exported path (book (o ∷ os)) (export (o ∷ os) path) h in
    (o ∷ os, p, b, e, refl)

module _ (parse_time : Str → Returns ℤ) (save_as : Str → Book → Option Error) where
  period_reply-status :
      (jd : PlainService) (form : OrderForm) (start end : Returns ℤ) (log : Log)
      → order_status (period_reply parse_time save_as jd form start end log).0 ≢ 0
  unfolding period_reply order_status
  period_reply-status jd form (failed e) end log = omega arith
  period_reply-status jd form (returned start) (failed e) log = omega arith
  period_reply-status jd form (returned start) (returned end) log =
      let size = parse_int_value (given_or (codes "200") form.page_size) in
      let order_type = parse_int_value form.order_type in
      exported_reply-ended (codes "jd_orders.xlsx") orders_book (export_jd_orders_to_excel save_as)
        (orders_of_period jd size order_type start end log) log
        (let (_, _, _, ran, _) = orders_of_period-IsCover jd size order_type start end log in ran)

  bonus_reply-status :
      (jd : Service) (query_of : ℤ → ℤ → Query) (start end : Option ℤ) (log : Log)
      → order_status (bonus_reply parse_time save_as jd query_of start end log).0 ≢ 0
  unfolding bonus_reply order_status
  bonus_reply-status jd query_of none end log = omega arith
  bonus_reply-status jd query_of (some start) none log = omega arith
  bonus_reply-status jd query_of (some start) (some end) log =
      exported_reply-ended (codes "jd_bonus_orders.xlsx") bonus_orders_book
        (export_jd_bonus_orders_to_excel save_as) (bonus_orders jd (query_of start end) log) log
        (let (_, _, _, ran, _) = bonus_orders-IsCover jd (query_of start end) log in ran)

  -- Both handlers reply to every request: no loop over hours, windows or pages goes on for ever.
  pub order_handlers_reply :
      (plain : PlainService) (form : OrderForm) (bonus : Service) (start_time end_time : Str)
      (page_size opt_type : Option Str) (activity_id : Str) (log : Log)
      → (order_status (get_jd_order parse_time save_as plain form log).0 ≢ 0)
        × (order_status
              (get_jd_bonus_order parse_time save_as bonus start_time end_time page_size opt_type
                activity_id log).0
            ≢ 0)
  unfolding get_jd_order get_jd_bonus_order order_status
  order_handlers_reply plain form bonus start_time end_time page_size opt_type activity_id log = (
    guarded (str_eq form.start_time [] || str_eq form.end_time []) log _ (
        period_reply-status plain form (parse_time form.start_time)
          (parse_time (end_time_text form.end_time)) log),
    guarded (str_eq start_time [] || str_eq end_time []) log _ (
        bonus_reply-status bonus (bonus_query page_size opt_type activity_id)
          (time_of_text parse_time start_time) (time_of_text parse_time end_time) log),
  )

  period_reply_exported :
      (jd : PlainService) (form : OrderForm) (start end : Returns ℤ) (log : Log) {path : Str}
      {book : Book}
      → let (reply, sent) = period_reply parse_time save_as jd form start end log in
        reply ≡ exported path book
        → (s : ℤ) × (e : ℤ) × (ws : List (ℤ × ℤ)) × (orders : List PlainOrder) × (start
            ≡ returned s)
          × (end ≡ returned e)
          × IsCover 3_600_000_000_000 e s ws
          × (fetch_each
                (fetch_hour jd
                  (parse_int_value (given_or (codes "200") form.page_size))
                  (parse_int_value form.order_type))
                ws
                []
                log
              ≡ some (ok orders, sent))
          × (book ≡ orders_book orders)
          × (save_as path book ≡ none)
  unfolding period_reply export_jd_orders_to_excel
  period_reply_exported jd form (failed e) end log h = cc
  period_reply_exported jd form (returned start) (failed e) log h = cc
  period_reply_exported jd form (returned start) (returned end) log h =
      let size = parse_int_value (given_or (codes "200") form.page_size) in
      let order_type = parse_int_value form.order_type in
      let (orders, p, b, saved, ran) =
        exported_reply_exported (codes "jd_orders.xlsx") orders_book
          (export_jd_orders_to_excel save_as) (orders_of_period jd size order_type start end log)
          log h in
      let (ws, out, cover, covered, each) =
        orders_of_period-IsCover jd size order_type start end log in
      (start, end, ws, orders, refl, refl, cover, each ∙ sym covered ∙ ran, b, rw (p, b) saved)

  -- Where GetJdOrder sends a workbook, both times were read, it holds the orders of windows of at most an
  -- hour that cover the period, each of which was fetched without an error, and it was saved.
  pub get_jd_order_exported :
      (jd : PlainService) (form : OrderForm) (log : Log) {path : Str} {book : Book}
      → let (reply, sent) = get_jd_order parse_time save_as jd form log in
        reply ≡ exported path book
        → (start : ℤ) × (end : ℤ) × (ws : List (ℤ × ℤ)) × (orders : List PlainOrder) × (parse_time
              form.start_time
            ≡ returned start)
          × (parse_time (end_time_text form.end_time) ≡ returned end)
          × IsCover 3_600_000_000_000 end start ws
          × (fetch_each
                (fetch_hour jd
                  (parse_int_value (given_or (codes "200") form.page_size))
                  (parse_int_value form.order_type))
                ws
                []
                log
              ≡ some (ok orders, sent))
          × (book ≡ orders_book orders)
          × (save_as path book ≡ none)
  unfolding get_jd_order period_reply export_jd_orders_to_excel
  get_jd_order_exported jd form log h =
      elim (Bool-cases (str_eq form.start_time [] || str_eq form.end_time [])) [
        | inl e ↦ absurd (missing_not_exported (rw e at h))
        | inr e ↦ rw e (
            period_reply_exported jd form (parse_time form.start_time)
              (parse_time (end_time_text form.end_time)) log (rw e at h))
      ]
