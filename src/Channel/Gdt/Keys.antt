-- ===== src/Channel/Gdt/Keys.antt =====
-- Which campaigns `processGdtExcelAndCallback` can reach: the click table's ids are cleaned, the keys
-- of the data source are not.
use report_api.Prelude.{◌≡◌, List, [], ◌∷◌, All, All-append, All-take, All-map, map}
use report_api.Prelude.Int.{pos_part}
use report_api.Go.Result.{Result, ok}
use report_api.Go.Text.{Str}
use report_api.Excel.{Workbook, Row}
use report_api.Callback.Group.{under, All-under}
use report_api.Callback.Click.{Click}
use report_api.Excel.CleanId.{IsClean}
use report_api.Callback.Click.Clean.{read_click_data-IsClean}
use report_api.Callback.Process.Plan.{wanted, plan}
use report_api.Channel.Gdt.{Source, Columns, read_gdt_click_data}
use report_api.Channel.Gdt.Panics.{tolerant_source}

-- Every record planned for a click row is filed under a clean campaign id.
plan-IsClean :
    (cols : Columns) (rows : List Row) (clicks : List Click)
    → All (λ (c : Click). IsClean c.ad_id) clicks
    → All (λ (r : Source). IsClean r.campaign_id) (plan (map (tolerant_source cols) rows) clicks)
plan-IsClean cols rows [] h = tt
plan-IsClean cols rows (c ∷ clicks) (hc, hs) =
    All-append _ (wanted _ c) _
      (All-take _ (pos_part c.click_count) _ (under-campaign cols rows c.ad_id hc))
      (plan-IsClean cols rows clicks hs)
  where
    under-campaign :
        (cols : Columns) (rows : List Row) (id : Str)
        → IsClean id
        → All (λ (r : Source). IsClean r.campaign_id) (under id (map (tolerant_source cols) rows))
    under-campaign cols rows id clean =
        All-under id (map (tolerant_source cols) rows) (λ (r : Source). IsClean r.campaign_id)
          (All-map _ (tolerant_source cols) rows (λ row same. rw same clean))

-- From a click table that can be read, no callback is planned for a data row whose campaign id cleaning
-- would change: one with white space at an end, or with a tab or a line break.
pub plan_reaches-IsClean :
    (cols : Columns) (rows : List Row) (click : Result Workbook) (clicks : List Click)
    → read_gdt_click_data click ≡ ok clicks
    → All (λ (r : Source). IsClean r.campaign_id) (plan (map (tolerant_source cols) rows) clicks)
unfolding read_gdt_click_data
plan_reaches-IsClean cols rows click clicks h =
    plan-IsClean cols rows clicks (read_click_data-IsClean click clicks h)
