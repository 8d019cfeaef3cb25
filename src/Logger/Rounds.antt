-- ===== src/Logger/Rounds.antt =====
-- How many lines a round of Start_Log takes from the queue.
use report_api.Prelude.{
  ℕ, zero, suc, ◌-◌, ◌*◌, ◌<◌, ◌≡◌, refl, Bool-cases, inl, inr, List, [], ◌∷◌, length, ◌==◌, ==_iff,
  arith,
}
use report_api.Go.Text.{Str}
use report_api.Logger.{
  Logger, Clock, write_log, sent_to, send_or_write, deal, round, Event, ticked, run,
}

sent_to-same :
    (topic : Str) (clock : Clock) (str : Str) (l : Logger)
    → (sent_to topic clock str l).ms_dealnumfre ≡ l.ms_dealnumfre
unfolding sent_to write_log
sent_to-same [] clock str l = refl
sent_to-same (c ∷ topic) clock str l = refl

deal-same :
    (clock : Clock) (i : ℕ) (queue : List Str) (l : Logger)
    → (deal clock i queue l).ms_dealnumfre ≡ l.ms_dealnumfre
unfolding deal send_or_write
deal-same clock i [] l = refl
deal-same clock i (e ∷ rest) l = elim (Bool-cases (suc i == l.ms_dealnumfre)) [
  | inl last ↦ rw last (sent_to-same l.ms_topic clock e l)
  | inr more ↦
      rw (more, deal-same clock (suc i) rest (sent_to l.ms_topic clock e l))
        (sent_to-same l.ms_topic clock e l)
]

deal-length :
    (clock : Clock) (i n : ℕ) (queue : List Str) (l : Logger)
    → l.ms_dealnumfre ≡ n
    → i < n
    → length (deal clock i queue l).ms_loglist ≡ length queue - (n - i)
unfolding deal send_or_write
deal-length clock i n [] l e h = omega arith
deal-length clock i n (x ∷ rest) l e h = elim (Bool-cases (suc i == l.ms_dealnumfre)) [
  | inl last ↦ rw last (omega (arith, (==_iff (suc i) l.ms_dealnumfre).0 last, e))
  | inr more ↦
      let sent = sent_to l.ms_topic clock x l in
      let below : suc i < n = ground arith in
      rw more (
        omega (
          arith,
          deal-length clock (suc i) n rest sent (rw (sent_to-same l.ms_topic clock x l) e) below,
        ))
]

round-length :
    (clock : Clock) (l : Logger)
    → 0 < l.ms_dealnumfre
    → length (round clock l).ms_loglist ≡ length l.ms_loglist - l.ms_dealnumfre
unfolding round
round-length clock l h = omega (arith, deal-length clock 0 l.ms_dealnumfre l.ms_loglist l refl h)

-- So many rounds of the timer.
abbrev pub ticks : ℕ → List Event
ticks zero = []
ticks (suc k) = ticked ∷ ticks k

-- Rounds without a new line take `ms_dealnumfre` lines each from the queue, until it is empty, if that
-- number is positive: k rounds leave what lies beyond k times this number.
pub length-run-ticks :
    (clock : Clock) (k : ℕ) (l : Logger)
    → 0 < l.ms_dealnumfre
    → length (run clock (ticks k) l).ms_loglist ≡ length l.ms_loglist - k * l.ms_dealnumfre
unfolding run round
length-run-ticks clock zero l h = omega arith
length-run-ticks clock (suc k) l h =
    let one = round-length clock l h in
    let same : (round clock l).ms_dealnumfre ≡ l.ms_dealnumfre = deal-same clock 0 l.ms_loglist l in
    let rest = length-run-ticks clock k (round clock l) (omega (arith, same, h)) in
    rw (rest, one, same) (grind arith)
