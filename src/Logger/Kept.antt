-- ===== src/Logger/Kept.antt =====
-- No line is lost, doubled or moved, and each is written to the file of its hour.
use report_api.Prelude.{
  ℕ, suc, ◌≡◌, refl, sym, ap, ◌∙◌, Bool-cases, inl, inr, List, [], ◌∷◌, ◌++◌, map, append_assoc,
  append-nil, ◌==◌,
}
use mathlib.Core.List.{map-append}
use report_api.Go.Text.{Str, str_eq, str_eq→eq}
use report_api.Logger.{
  Place, in_file, Logger, log_file, Clock, current_name, rotated, write_log, sent_to, send_or_write,
  deal, round, Event, logged, ticked, run,
}

-- The lines that went out.
abbrev pub lines : Logger → List Str
lines l = map (λ entry. entry.1) l.output

-- The lines that were logged.
abbrev pub logged_lines : List Event → List Str
logged_lines [] = []
logged_lines (logged str ∷ events) = str ∷ logged_lines events
logged_lines (ticked ∷ events) = logged_lines events

lines-append :
    (output : List (Place × Str)) (place : Place) (str : Str)
    → map (λ entry. entry.1) (output ++ (place, str) ∷ [])
      ≡ map (λ entry. entry.1) output ++ str ∷ []
lines-append output place str = map-append (λ entry. entry.1) output ((place, str) ∷ [])

lines-sent_to :
    (topic : Str) (clock : Clock) (str : Str) (l : Logger)
    → lines (sent_to topic clock str l) ≡ lines l ++ str ∷ []
unfolding sent_to write_log
lines-sent_to [] clock str l = lines-append l.output _ str
lines-sent_to (c ∷ topic) clock str l = lines-append l.output _ str

lines-deal :
    (clock : Clock) (i : ℕ) (queue : List Str) (l : Logger)
    → lines (deal clock i queue l) ++ (deal clock i queue l).ms_loglist ≡ lines l ++ queue
unfolding deal send_or_write
lines-deal clock i [] l = refl
lines-deal clock i (e ∷ rest) l =
    let sent = sent_to l.ms_topic clock e l in
    let out : lines sent ++ rest ≡ lines l ++ e ∷ rest =
      ap (λ texts. texts ++ rest) (lines-sent_to l.ms_topic clock e l)
      ∙ append_assoc (lines l) (e ∷ []) rest in
    elim (Bool-cases (suc i == l.ms_dealnumfre)) [
      | inl last ↦ rw last out
      | inr more ↦ rw more (lines-deal clock (suc i) rest sent ∙ out)
    ]

-- Whatever was logged, and whenever the rounds came, the lines that went out and then those that still
-- wait are those of the start and then the logged ones, each once and in order.
pub lines-run :
    (clock : Clock) (events : List Event) (l : Logger)
    → lines (run clock events l) ++ (run clock events l).ms_loglist
      ≡ lines l ++ l.ms_loglist ++ logged_lines events
unfolding run round log_file
lines-run clock [] l = sym (append-nil (lines l ++ l.ms_loglist))
lines-run clock (logged str ∷ events) l =
    lines-run clock events (log_file str l)
    ∙ ap (λ texts. texts ++ logged_lines events)
        (sym (append_assoc (lines l) l.ms_loglist (str ∷ [])))
    ∙ append_assoc (lines l ++ l.ms_loglist) (str ∷ []) (logged_lines events)
lines-run clock (ticked ∷ events) l =
    lines-run clock events (round clock l)
    ∙ ap (λ texts. texts ++ logged_lines events) (lines-deal clock 0 l.ms_loglist l)

rotated-name : (curfile name : Str) (tasks : List Str) → (rotated curfile name tasks).0 ≡ name
unfolding rotated
rotated-name [] name tasks = refl
rotated-name (c ∷ curfile) name tasks = elim (Bool-cases (str_eq name (c ∷ curfile))) [
  | inl same ↦ rw same (sym (str_eq→eq name (c ∷ curfile) same))
  | inr other ↦ rw other
]

-- Write_Log prints a line to the file of the current day and hour, whatever file was open before, and
-- leaves this file open.
pub write_log-current_name :
    (clock : Clock) (str : Str) (l : Logger)
    → let written = write_log clock str l in
      (written.output ≡ l.output ++ (in_file (current_name clock l), str) ∷ [])
      × (written.ms_curfile ≡ current_name clock l)
unfolding write_log
write_log-current_name clock str l =
    let name = rotated-name l.ms_curfile (current_name clock l) l.tasks in (rw name, name)
