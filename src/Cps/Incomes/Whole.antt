-- ===== src/Cps/Incomes/Whole.antt =====
-- What the report of incomes needs to succeed.
use report_api.Prelude.{ℕ, ◌+◌, ◌≡◌, ◌≢◌, Bool, true, false, none, List, [], ◌∷◌}
use report_api.Go.Result.{Result, ok}
use report_api.Go.Text.{Str, codes}
use report_api.Excel.Sheet.{Sheet}
use report_api.Callback.Http.{Log}
use report_api.Cps.{Library, Network, cps_client, fetch_top_page}
use report_api.Cps.Incomes.{IncomeDetail, IncomeForm, IncomeVo, income_vo}

-- Both objects are there.
abbrev pub IsWhole : IncomeDetail → Type 0
IsWhole income = (income.bill_info ≢ none) × (income.trade_order ≢ none)

-- The query of one page.
abbrev pub fetch_incomes :
    {J : Type 0}
    → Library J IncomeDetail
    → Network
    → (IncomeVo → Str)
    → IncomeForm
    → ℕ
    → Bool
    → Log
    → Result (List IncomeDetail × Bool) × Log
fetch_incomes json net marshal form =
    fetch_top_page json cps_client net (codes "alibaba.idle.affiliate.cps.income.details.query")
      (codes "alibaba_idle_affiliate_cps_income_details_query_response" ∷ codes "result" ∷ [])
      (codes "commission_detail_d_t_o")
      (λ page_no. (codes "income_detail_vo", marshal (income_vo form page_no)) ∷ [])

-- Pages that were fetched one after the other, from a number on, in any state of the loop. The last of
-- them says that there is no next page, and every other one says that there is one.
pub data NextPages {J : Type 0} (json : Library J IncomeDetail) (net : Network)
    (marshal : IncomeVo → Str) (form : IncomeForm)
    : ℕ → Bool → Log → List (List IncomeDetail) → Log → Type 0 where
  no_next :
      {page_no : ℕ} {from : Bool} {log log' : Log} {new : List IncomeDetail}
      → fetch_incomes json net marshal form page_no from log ≡ (ok (new, false), log')
      → NextPages json net marshal form page_no from log (new ∷ []) log'
  next_page :
      {page_no : ℕ} {from : Bool} {log log' log'' : Log} {new : List IncomeDetail}
      {pages : List (List IncomeDetail)}
      → fetch_incomes json net marshal form page_no from log ≡ (ok (new, true), log')
      → NextPages json net marshal form (page_no + 1) true log' pages log''
      → NextPages json net marshal form page_no from log (new ∷ pages) log''

-- None of the five parameters is empty.
abbrev pub IsComplete : IncomeForm → Type 0
IsComplete form =
    (form.start_create ≢ [])
    × (form.end_create ≢ [])
    × (form.create_month ≢ [])
    × (form.start_update ≢ [])
    × (form.end_update ≢ [])
