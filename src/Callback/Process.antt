-- ===== src/Callback/Process.antt =====
-- The main loop of `processExcelAndCallback`, over any kind of record.
pub mod Plan
pub mod Report
use report_api.Prelude.{
  ℕ, ◌+◌, Bool, true, false, Option, none, some, List, [], ◌∷◌, ◌++◌, length, take, if◌then◌else◌,
}
use report_api.Prelude.Int.{ℤ, pos, pos_part, ltb_ℤ}
use report_api.Go.Result.{Result, ok, err, panic, wrap}
use report_api.Go.Text.{Str, Bytes, codes}
use report_api.Callback.Http.{Env, Log, get}
use report_api.Callback.Group.{lookup}
use report_api.Callback.Click.{Click}

-- An entry of `callbackDetails`.
pub data Detail : Type 0 where
  skipped : (ad_id : Str) (click_count : ℤ) → Detail
  completed : (ad_id : Str) (click_count executed_count : ℤ) (callbacks : List Bytes) → Detail

-- The counters and lists of the loop, and the requests sent.
pub record Run : Type 0 where
  pub total : ℕ
  pub success : ℕ
  pub failed : ℕ
  pub details : List Detail
  pub sent : Log

abbrev pub start : Log → Run
start log = record { total = 0; success = 0; failed = 0; details = []; sent = log }

-- `count := clickCount; if count > len(records) { count = len(records) }`.
unfoldable pub executed_count : ℤ → ℕ → ℤ
executed_count click_count available =
    if ltb_ℤ (pos available) click_count then pos available else click_count

-- An entry of `callbackResults`.
unfoldable pub outcome_line : Bool → Bytes → Bytes
outcome_line done param = if done then codes "Success: " ++ param else codes "Failed: " ++ param

module _ {R : Type 0} (env : Env) (request : R → Log → Bytes) (label : R → Bytes) where
  -- One callback and its counters.
  unfoldable pub call : R → Run → Bool × Run
  unfolding get
  call r run =
      let (done, sent) = get env (request r run.sent) run.sent in
      (
        done,
        if done
            then record run { total = run.total + 1; success = run.success + 1; sent = sent }
            else record run { total = run.total + 1; failed = run.failed + 1; sent = sent },
      )

  -- `for i := 0; i < count; i++` over `records[i]`.
  unfoldable pub call_all : List R → Run → List Bytes → Run × List Bytes
  unfolding call outcome_line
  call_all [] run results = (run, results)
  call_all (r ∷ rs) run results =
      let (done, run') = call r run in
      call_all rs run' (results ++ outcome_line done (label r) ∷ [])

  unfoldable pub process_click : List (Str × List R) → Click → Run → Run
  unfolding call_all executed_count lookup
  process_click groups click run = elim (lookup click.ad_id groups) [
    | none ↦ record run { details = run.details ++ skipped click.ad_id click.click_count ∷ [] }
    | some records ↦
        let count = executed_count click.click_count (length records) in
        let (run', results) = call_all (take (pos_part count) records) run [] in
        record run' {
          details = run'.details ++ completed click.ad_id click.click_count count results ∷ [];
        }
  ]

  unfoldable pub process_clicks : List (Str × List R) → List Click → Run → Run
  unfolding process_click
  process_clicks groups [] run = run
  process_clicks groups (c ∷ clicks) run = process_clicks groups clicks (process_click groups c run)

  -- Both tables are read before the first callback. The result, and the requests sent so far.
  unfoldable pub process :
      Result (List (Str × List R)) → Result (List Click) → Log → Result Run × Log
  unfolding process_clicks
  process sources clicks log = elim (wrap "failed to read data source" sources) [
    | err e ↦ (err e, log)
    | panic p ↦ (panic p, log)
    | ok groups ↦ elim (wrap "failed to read click data" clicks) [
      | err e ↦ (err e, log)
      | panic p ↦ (panic p, log)
      | ok list ↦ let run = process_clicks groups list (start log) in (ok run, run.sent)
    ]
  ]
