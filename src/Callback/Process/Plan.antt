-- ===== src/Callback/Process/Plan.antt =====
-- What `process` does, stated without its map and its counters: the records that the two tables ask
-- for, called one after the other.
use report_api.Prelude.{
  ℕ, suc, ◌+◌, ◌≡◌, refl, Bool, true, false, none, List, [], ◌∷◌, ◌++◌, length, take, length-append,
  append_assoc, append-nil, map, take_all, take-nil, if◌then◌else◌, arith, sym, ap, ◌∙◌,
}
use report_api.Prelude.Int.{ℤ, pos, negsuc, pos_part}
use report_api.Go.Text.{Str, Bytes}
use report_api.Callback.Http.{Env, Log, is_success}
use report_api.Callback.Group.{lookup, group_from, under, add_under, lookup-group}
use report_api.Callback.Click.{Click}
use report_api.Callback.Process.{
  Run, Detail, start, executed_count, call, call_all, process_click, process_clicks,
}

-- The records that one row of the click table asks for: the first `click_count` of those with its id.
abbrev pub wanted : {R : Type 0} → List (Str × R) → Click → List R
wanted keyed c = take (pos_part c.click_count) (under c.ad_id keyed)

abbrev pub plan : {R : Type 0} → List (Str × R) → List Click → List R
plan keyed [] = []
plan keyed (c ∷ clicks) = wanted keyed c ++ plan keyed clicks

abbrev pub count_true : List Bool → ℕ
count_true [] = 0
count_true (b ∷ bs) = if b then suc (count_true bs) else count_true bs

count_true-append : (bs cs : List Bool) → count_true (bs ++ cs) ≡ count_true bs + count_true cs
count_true-append [] cs = omega arith
count_true-append (true ∷ bs) cs = omega (arith, count_true-append bs cs)
count_true-append (false ∷ bs) cs = count_true-append bs cs

pub take-executed_count :
    {R : Type 0} (n : ℤ) (rs : List R)
    → take (pos_part (executed_count n (length rs))) rs ≡ take (pos_part n) rs
unfolding executed_count
take-executed_count (negsuc n) rs = ground arith
take-executed_count (pos n) rs = ground (arith, take_all n rs, take_all (length rs) rs)

module _ {R : Type 0} (env : Env) (request : R → Log → Bytes) where
  -- The requests sent once the records were called in turn.
  abbrev pub log_after : List R → Log → Log
  log_after [] log = log
  log_after (r ∷ rs) log = log_after rs (log ++ request r log ∷ [])

  -- Which of the calls got a reply with a status from 200 to 299.
  abbrev pub outcomes : List R → Log → List Bool
  outcomes [] log = []
  outcomes (r ∷ rs) log =
      is_success (env.respond log (request r log)) ∷ outcomes rs (log ++ request r log ∷ [])

  log_after-append :
      (rs ts : List R) (log : Log) → log_after (rs ++ ts) log ≡ log_after ts (log_after rs log)
  log_after-append [] ts log = refl
  log_after-append (r ∷ rs) ts log = log_after-append rs ts (log ++ request r log ∷ [])

  outcomes-append :
      (rs ts : List R) (log : Log)
      → outcomes (rs ++ ts) log ≡ outcomes rs log ++ outcomes ts (log_after rs log)
  outcomes-append [] ts log = refl
  outcomes-append (r ∷ rs) ts log = rw (outcomes-append rs ts (log ++ request r log ∷ []))

  -- `after` is `before` with the records called.
  pub record Called (rs : List R) (before after : Run) : Type 0 where
    pub sent : after.sent ≡ log_after rs before.sent
    pub total : after.total ≡ before.total + length rs
    pub success : after.success ≡ before.success + count_true (outcomes rs before.sent)
    pub failed : after.failed + count_true (outcomes rs before.sent) ≡ before.failed + length rs

  Called-append :
      {rs ts : List R} {a b c : Run} → Called rs a b → Called ts b c → Called (rs ++ ts) a c
  Called-append {rs} {ts} {a} {b} {c} p q =
      let split = rw (← p.sent) at (outcomes-append rs ts a.sent) in
      let counts =
        ap count_true split ∙ count_true-append (outcomes rs a.sent) (outcomes ts b.sent) in
      record {
        sent = q.sent ∙ ap (log_after ts) p.sent ∙ sym (log_after-append rs ts a.sent);
        total = omega (arith, p.total, q.total, length-append rs ts);
        success = omega (arith, p.success, q.success, counts);
        failed = omega (arith, p.failed, q.failed, counts, length-append rs ts);
      }

  Called-cast : {rs ts : List R} {a b : Run} → rs ≡ ts → Called rs a b → Called ts a b
  Called-cast e p = rw (← e) p

  Called-details :
      {rs : List R} {a b : Run} (details : List Detail)
      → Called rs a b
      → Called rs a (record b { details = details })
  Called-details details p = record {
    sent = p.sent;
    total = p.total;
    success = p.success;
    failed = p.failed;
  }

  Called-none : (run : Run) → Called [] run run
  Called-none run = record {
    sent = refl;
    total = omega arith;
    success = omega arith;
    failed = omega arith;
  }

  module _ (label : R → Bytes) where
    pub call-Called : (r : R) (run : Run) → Called (r ∷ []) run (call env request label r run).1
    unfolding call
    call-Called r run = ground arith

    pub call_all-Called :
        (rs : List R) (run : Run) (results : List Bytes)
        → Called rs run (call_all env request label rs run results).0
    unfolding call_all
    call_all-Called [] run results = Called-none run
    call_all-Called (r ∷ rs) run results =
        Called-append (call-Called r run) (call_all-Called rs (call env request label r run).1 _)

    pub process_found :
        (groups : List (Str × List R)) (c : Click) (run : Run) (rs : List R)
        → lookup c.ad_id groups ≡ add_under none rs
        → Called
            (take (pos_part c.click_count) rs)
            run
            (process_click env request label groups c run)
    unfolding process_click
    process_found groups c run [] e =
        rw (e, process_click, take-nil (pos_part c.click_count))
          (Called-details _ (Called-none run))
    process_found groups c run (r ∷ rs) e =
        rw (e, process_click)
          (Called-details _
            (Called-cast (take-executed_count c.click_count (r ∷ rs)) (call_all-Called _ run [])))

    pub process_clicks-Called :
        (keyed : List (Str × R)) (clicks : List Click) (run : Run)
        → Called
            (plan keyed clicks)
            run
            (process_clicks env request label (group_from [] keyed) clicks run)
    unfolding process_clicks
    process_clicks-Called keyed [] run = Called-none run
    process_clicks-Called keyed (c ∷ clicks) run =
        Called-append
          (process_found (group_from [] keyed) c run (under c.ad_id keyed)
            (lookup-group c.ad_id keyed))
          (process_clicks-Called keyed clicks _)

    -- Starting with nothing counted, the requests sent are those of the planned records, in the order
    -- of the click table and, within one of its rows, of the data source.
    pub sent-process_clicks :
        (keyed : List (Str × R)) (clicks : List Click) (log : Log)
        → (process_clicks env request label (group_from [] keyed) clicks (start log)).sent
          ≡ log_after (plan keyed clicks) log
    sent-process_clicks keyed clicks log = (process_clicks-Called keyed clicks (start log)).sent

    -- The total counts the planned records, the successes are the calls whose reply has a status from
    -- 200 to 299, and every other call is a failure.
    pub counters-process_clicks :
        (keyed : List (Str × R)) (clicks : List Click) (log : Log)
        → let run = process_clicks env request label (group_from [] keyed) clicks (start log) in
          (run.total ≡ length (plan keyed clicks))
          × (run.success ≡ count_true (outcomes (plan keyed clicks) log))
          × (run.success + run.failed ≡ run.total)
    counters-process_clicks keyed clicks log =
        let p = process_clicks-Called keyed clicks (start log) in
        (
          omega (arith, p.total),
          omega (arith, p.success),
          omega (arith, p.total, p.success, p.failed),
        )

-- URLs that do not depend on the time of the call.
pub log_after-map :
    {R : Type 0} (env : Env) (url : R → Bytes) (rs : List R) (log : Log)
    → log_after env (λ r _. url r) rs log ≡ log ++ map url rs
log_after-map env url [] log = sym (append-nil log)
log_after-map env url (r ∷ rs) log =
    log_after-map env url rs (log ++ url r ∷ []) ∙ append_assoc log (url r ∷ []) (map url rs)
