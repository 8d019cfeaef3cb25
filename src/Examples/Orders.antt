-- ===== src/Examples/Orders.antt =====
-- The bonus orders of a period on a small service.
use report_api.Prelude.{Option, ◌≡◌, refl, some, List, [], ◌∷◌}
use report_api.Prelude.Int.{ℤ, pos}
use report_api.Go.Result.{Result, ok}
use report_api.Go.Text.{Bytes, codes, str_eq}
use report_api.Callback.Http.{Log}
use report_api.Order.Pages.{fetch_pages}
use report_api.Order.Windows.{window_end, by_window}
use report_api.Order.Windows.Cover.{IsCover, fetch_each}
use report_api.Order.Bonus.{
  BonusOrder, Item, Response, Service, Query, order_of_item, bonus_url, fetch_page, is_last,
  read_response, page_of_response, next_sort_value, fetch_bonus_orders,
}
use report_api.Order.Bonus.Period.{fetch_window, bonus_orders, bonus_orders-IsCover}

abbrev pub item : Item
item = record {
  union_id = pos 0;
  bonus_invalid_code = [];
  bonus_invalid_text = [];
  pay_price = 0;
  estimate_cos_price = 0;
  estimate_fee = 0;
  actual_cos_price = 0;
  actual_fee = 0;
  order_time = pos 0;
  finish_time = pos 0;
  position_id = pos 0;
  order_id = pos 0;
  bonus_state = pos 0;
  bonus_text = [];
  sku_name = [];
  commission_rate = 0;
  sub_union_id = [];
  pid = [];
  ext1 = [];
  union_alias = [];
  sub_side_rate = 0;
  subsidy_rate = 0;
  final_rate = 0;
  activity_name = [];
  parent_id = pos 0;
  sku_id = pos 0;
  estimate_bonus_fee = 0;
  actual_bonus_fee = 0;
  order_state = pos 0;
  order_text = [];
  sort_value = codes "s";
  activity_id = pos 0;
  channel_id = pos 0;
  item_id = [];
  id = pos 0;
  account = [];
}

abbrev answer : Bytes → Result Response
answer (b ∷ []) =
    ok (record { code = codes "0"; query_code = pos 200; message = []; items = item ∷ [] })
answer _ = ok (record { code = codes "0"; query_code = pos 200; message = []; items = [] })

abbrev body : Log → Bytes
body [] = 0 ∷ []
body (_ ∷ _) = 0 ∷ 0 ∷ []

-- The first page holds an order that names a sort value, the second holds none.
abbrev pub service : Service
service = record {
  marshal = λ r. [];
  unmarshal = answer;
  reply = λ log url. ok (body log);
  timestamp = λ log. [];
  zone = λ t. [];
}

abbrev query : Query
query = record {
  opt_type = pos 1;
  start_time = pos 0;
  end_time = pos 700000;
  page_size = pos 100;
  activity_id = [];
}

abbrev pages_log : Log
pages_log = bonus_url [] [] ∷ bonus_url [] [] ∷ []

pages_fetched :
    fetch_bonus_orders service query [] ≡ some (ok (order_of_item (λ t. []) item ∷ []), pages_log)
unfolding fetch_bonus_orders fetch_pages fetch_page is_last read_response page_of_response
    next_sort_value str_eq
pages_fetched = refl

bonus_orders-IsCover_example :
    (ws : List (ℤ × ℤ)) × (out : Result (List BonusOrder) × Log) × IsCover 600000
      (pos 700000)
      (pos 0)
      ws
    × (bonus_orders service query [] ≡ some out)
    × (fetch_each (fetch_window service query) ws [] [] ≡ some out)
bonus_orders-IsCover_example = bonus_orders-IsCover service query []

abbrev echo : ℤ → ℤ → List (ℤ × ℤ) → Option (Result (List ℤ) × List (ℤ × ℤ))
echo current until seen = some (ok (current ∷ []), (current, until) ∷ seen)

windows_test :
    by_window echo 600 5 (pos 0) (pos 1000) [] []
    ≡ some (ok (pos 0 ∷ pos 600 ∷ []), (pos 600, pos 1000) ∷ (pos 0, pos 600) ∷ [])
unfolding by_window window_end
windows_test = refl
