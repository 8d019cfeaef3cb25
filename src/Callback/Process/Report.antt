-- ===== src/Callback/Process/Report.antt =====
-- The list `callbackDetails` of the reply.
use report_api.Prelude.{
  ◌≡◌, refl, sym, ap, ◌∙◌, Bool, none, List, [], ◌∷◌, ◌++◌, length, take, append_assoc, append-nil,
  arith,
}
use report_api.Prelude.Int.{pos_part}
use report_api.Go.Text.{Str, Bytes}
use report_api.Callback.Http.{Env, Log, is_success}
use report_api.Callback.Group.{lookup, group_from, under, add_under, lookup-group}
use report_api.Callback.Click.{Click}
use report_api.Callback.Process.{
  Run, Detail, skipped, completed, start, executed_count, call, call_all, process_click,
  process_clicks, outcome_line,
}
use report_api.Callback.Process.Plan.{
  wanted, log_after, call-Called, process_found, take-executed_count,
}

module _ {R : Type 0} (env : Env) (request : R → Log → Bytes) (label : R → Bytes) where
  -- One line for each record called.
  abbrev pub lines : List R → Log → List Bytes
  lines [] log = []
  lines (r ∷ rs) log =
      outcome_line (is_success (env.respond log (request r log))) (label r)
      ∷ lines rs (log ++ request r log ∷ [])

  abbrev pub entry_for : Click → List R → Log → Detail
  entry_for c [] log = skipped c.ad_id c.click_count
  entry_for c (r ∷ rs) log =
      completed c.ad_id c.click_count (executed_count c.click_count (length (r ∷ rs)))
        (lines (take (pos_part c.click_count) (r ∷ rs)) log)

  -- One entry for each row of the click table.
  abbrev pub report : List (Str × R) → List Click → Log → List Detail
  report keyed [] log = []
  report keyed (c ∷ clicks) log =
      entry_for c (under c.ad_id keyed) log
      ∷ report keyed clicks (log_after env request (wanted keyed c) log)

  call_all-details :
      (rs : List R) (run : Run) (results : List Bytes)
      → (call_all env request label rs run results).0.details ≡ run.details
  unfolding call_all
  call_all-details [] run results = refl
  call_all-details (r ∷ rs) run results =
      call_all-details rs (call env request label r run).1 _
      ∙ call-details (is_success (env.respond run.sent (request r run.sent)))
    where
      call-details : (b : Bool) → (call env request label r run).1.details ≡ run.details
      call-details b = ground arith

  call_all-lines :
      (rs : List R) (run : Run) (results : List Bytes)
      → (call_all env request label rs run results).1 ≡ results ++ lines rs run.sent
  unfolding call_all
  call_all-lines [] run results = sym (append-nil results)
  call_all-lines (r ∷ rs) run results =
      let line = outcome_line (is_success (env.respond run.sent (request r run.sent))) (label r) in
      call_all-lines rs (call env request label r run).1 (results ++ line ∷ [])
      ∙ ap (λ log. (results ++ line ∷ []) ++ lines rs log)
          (call-Called env request label r run).sent
      ∙ append_assoc results (line ∷ []) _

  process_click-entry :
      (groups : List (Str × List R)) (c : Click) (run : Run) (rs : List R)
      → lookup c.ad_id groups ≡ add_under none rs
      → (process_click env request label groups c run).details
        ≡ run.details ++ entry_for c rs run.sent ∷ []
  unfolding process_click
  process_click-entry groups c run [] e = rw (e, process_click)
  process_click-entry groups c run (r ∷ rs) e = rw (
    e,
    process_click,
    call_all-details _ run [],
    call_all-lines _ run [],
    take-executed_count c.click_count (r ∷ rs),
  )

  report-process_clicks :
      (keyed : List (Str × R)) (clicks : List Click) (run : Run)
      → (process_clicks env request label (group_from [] keyed) clicks run).details
        ≡ run.details ++ report keyed clicks run.sent
  unfolding process_clicks
  report-process_clicks keyed [] run = sym (append-nil run.details)
  report-process_clicks keyed (c ∷ clicks) run =
      let groups = group_from [] keyed in
      let here = lookup-group c.ad_id keyed in
      let run' = process_click env request label groups c run in
      report-process_clicks keyed clicks run'
      ∙ ap (λ details. details ++ report keyed clicks run'.sent)
          (process_click-entry groups c run (under c.ad_id keyed) here)
      ∙ ap
          (λ log.
            (run.details ++ entry_for c (under c.ad_id keyed) run.sent ∷ [])
            ++ report keyed clicks log)
          (process_found env request label groups c run (under c.ad_id keyed) here).sent
      ∙ append_assoc run.details (entry_for c (under c.ad_id keyed) run.sent ∷ []) _

  -- The reply has one entry for each row of the click table, in order: skipped where no record has the
  -- row's id, and else with a line for each of the first `click_count` records that have it.
  pub details-process_clicks :
      (keyed : List (Str × R)) (clicks : List Click) (log : Log)
      → (process_clicks env request label (group_from [] keyed) clicks (start log)).details
        ≡ report keyed clicks log
  details-process_clicks keyed clicks log = report-process_clicks keyed clicks (start log)
