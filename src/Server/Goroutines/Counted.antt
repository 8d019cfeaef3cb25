-- ===== src/Server/Goroutines/Counted.antt =====
-- What the counter of a WaitGroup counts, and which panics end the program.
use report_api.Prelude.{
  ℕ, zero, suc, ◌+◌, Bool, false, ◌≡◌, refl, sym, subst, ap, ◌∙◌, Option, none, some, List, [], ◌∷◌,
  ◌++◌, append-nil, append_assoc, All, Bool-cases, inl, inr, arith, if◌then◌else◌,
}
use report_api.Go.Result.{Panic}
use report_api.Server.Goroutines.{
  RecoverFn, Goroutine, run_with, run_with_recover, run_recover, ExecEnd, finished, panicked,
  WaitGroup, crash, done, dump, add_one, recovered, done_after, ended_after, ends_goroutine,
  Goroutines, GoEvent, starts, ends, end_at, go_live, go_step, go_run,
}

abbrev pub weight : Goroutine → ℕ
weight run_with = 1
weight (run_with_recover recover_fn) = 1
weight (run_recover recover_fn) = 0

-- How many of the goroutines a WaitGroup counts.
abbrev pub counted_goroutines : List Goroutine → ℕ
counted_goroutines [] = 0
counted_goroutines (g ∷ gs) = weight g + counted_goroutines gs

counted_goroutines-append :
    (xs ys : List Goroutine)
    → counted_goroutines (xs ++ ys) ≡ counted_goroutines xs + counted_goroutines ys
counted_goroutines-append [] ys = omega arith
counted_goroutines-append (x ∷ xs) ys = rw (counted_goroutines-append xs ys) (omega arith)

-- A handler that does not panic.
abbrev pub IsCalm : RecoverFn → Type 0
IsCalm none = Unit
IsCalm (some recover_fn) = (p : Panic) → recover_fn p ≡ none

-- A goroutine that recovers its panic.
abbrev pub IsGuarded : Goroutine → Type 0
IsGuarded run_with = ⊥
IsGuarded (run_with_recover recover_fn) = IsCalm recover_fn
IsGuarded (run_recover recover_fn) = IsCalm recover_fn

abbrev pub IsGuardedEvent : GoEvent → Type 0
IsGuardedEvent (starts g) = IsGuarded g
IsGuardedEvent (ends i e) = Unit

-- The counter is right while the program runs.
abbrev pub IsCounted : Goroutines → Type 0
IsCounted gs = gs.group.crashed ≡ false → gs.group.counter ≡ counted_goroutines gs.running

data EndAt (all : List Goroutine) (e : ExecEnd) (w : WaitGroup) (gs : Goroutines) : Type 0 where
  out_of_range : gs ≡ record { running = all; group = w } → EndAt all e w gs
  taken_out :
      (xs : List Goroutine) (g : Goroutine) (ys : List Goroutine)
      → all ≡ xs ++ g ∷ ys
      → gs ≡ record { running = xs ++ ys; group = ends_goroutine g e w }
      → EndAt all e w gs

end_at-EndAt :
    (all before : List Goroutine) (i : ℕ) (after : List Goroutine) (e : ExecEnd) (w : WaitGroup)
    → all ≡ before ++ after
    → EndAt all e w (end_at before i after e w)
unfolding end_at
end_at-EndAt all before i [] e w h = out_of_range (rw (h, append-nil before))
end_at-EndAt all before zero (g ∷ after) e w h = taken_out before g after h refl
end_at-EndAt all before (suc i) (g ∷ after) e w h =
    end_at-EndAt all (before ++ g ∷ []) i after e w (rw (append_assoc before (g ∷ []) after) h)

done-suc : (k n : ℕ) (w : WaitGroup) → k ≡ 1 + n → done k w ≡ record w { counter = n }
unfolding done
done-suc zero n w h = absurd (omega arith)
done-suc (suc k) n w h = ap (λ m. record w { counter = m }) (omega arith)

done_after-counter :
    (q : Option Panic) (w : WaitGroup) (n : ℕ)
    → w.counter ≡ 1 + n
    → (done_after (q, w)).crashed ≡ false
    → (done_after (q, w)).counter ≡ n
unfolding done_after crash
done_after-counter none w n h c = rw (done-suc w.counter n w h)
done_after-counter (some p) w n h c = cc

ended_after-counter : (q : Option Panic) (w : WaitGroup) → (ended_after (q, w)).counter ≡ w.counter
unfolding ended_after crash
ended_after-counter none w = refl
ended_after-counter (some p) w = refl

-- A goroutine that ends and leaves the program running takes away what it counted.
ends_goroutine-counter :
    (g : Goroutine) (e : ExecEnd) (w : WaitGroup) (n : ℕ)
    → w.counter ≡ weight g + n
    → (ends_goroutine g e w).crashed ≡ false
    → (ends_goroutine g e w).counter ≡ n
unfolding ends_goroutine recovered crash dump
ends_goroutine-counter run_with finished w n h c = rw (done-suc w.counter n w h)
ends_goroutine-counter run_with (panicked p) w n h c = cc
ends_goroutine-counter (run_with_recover f) finished w n h c = rw (done-suc w.counter n w h)
ends_goroutine-counter (run_with_recover none) (panicked p) w n h c =
    done_after-counter none w n h c
ends_goroutine-counter (run_with_recover (some f)) (panicked p) w n h c =
    done_after-counter (f p) (dump p w) n h c
ends_goroutine-counter (run_recover f) finished w n h c = h ∙ omega arith
ends_goroutine-counter (run_recover none) (panicked p) w n h c =
    ended_after-counter none w ∙ h ∙ omega arith
ends_goroutine-counter (run_recover (some f)) (panicked p) w n h c =
    ended_after-counter (f p) (dump p w) ∙ h ∙ omega arith

-- A goroutine that recovers its panic leaves the program running.
ends_goroutine-running :
    (g : Goroutine) (e : ExecEnd) (w : WaitGroup) (n : ℕ)
    → IsGuarded g
    → w.crashed ≡ false
    → w.counter ≡ weight g + n
    → (ends_goroutine g e w).crashed ≡ false
unfolding ends_goroutine recovered dump done_after ended_after
ends_goroutine-running run_with e w n g c h = absurd g
ends_goroutine-running (run_with_recover f) finished w n g c h = rw (done-suc w.counter n w h) c
ends_goroutine-running (run_with_recover none) (panicked p) w n g c h =
    rw (done-suc w.counter n w h) c
ends_goroutine-running (run_with_recover (some f)) (panicked p) w n g c h =
    rw (g p, done-suc w.counter n (dump p w) h) c
ends_goroutine-running (run_recover f) finished w n g c h = c
ends_goroutine-running (run_recover none) (panicked p) w n g c h = c
ends_goroutine-running (run_recover (some f)) (panicked p) w n g c h = rw (g p) c

split_out :
    (xs ys : List Goroutine) (g : Goroutine)
    → counted_goroutines (xs ++ g ∷ ys) ≡ weight g + counted_goroutines (xs ++ ys)
split_out xs ys g =
    rw (counted_goroutines-append xs (g ∷ ys), counted_goroutines-append xs ys) (omega arith)

EndAt-IsCounted :
    (all : List Goroutine) (e : ExecEnd) (w : WaitGroup) (gs : Goroutines)
    → w.counter ≡ counted_goroutines all
    → EndAt all e w gs
    → IsCounted gs
EndAt-IsCounted all e w gs h (out_of_range eq) = rw eq (λ c. h)
EndAt-IsCounted all e w gs h (taken_out xs g ys whole eq) = rw eq (
    ends_goroutine-counter g e w (counted_goroutines (xs ++ ys))
      (h ∙ ap counted_goroutines whole ∙ split_out xs ys g))

add_one-counter : (g : Goroutine) (w : WaitGroup) → (add_one g w).counter ≡ weight g + w.counter
unfolding add_one
add_one-counter run_with w = omega arith
add_one-counter (run_with_recover f) w = omega arith
add_one-counter (run_recover f) w = omega arith

add_one-crashed :
    (g : Goroutine) (w : WaitGroup) → w.crashed ≡ false → (add_one g w).crashed ≡ false
unfolding add_one
add_one-crashed run_with w c = c
add_one-crashed (run_with_recover f) w c = c
add_one-crashed (run_recover f) w c = c

go_live-IsCounted :
    (event : GoEvent) (gs : Goroutines)
    → gs.group.counter ≡ counted_goroutines gs.running
    → IsCounted (go_live event gs)
unfolding go_live
go_live-IsCounted (starts g) gs h c = add_one-counter g gs.group ∙ ap (λ n. weight g + n) h
go_live-IsCounted (ends i e) gs h c =
    EndAt-IsCounted gs.running e gs.group _ h
      (end_at-EndAt gs.running [] i gs.running e gs.group refl) c

go_step-decided :
    (event : GoEvent) (gs : Goroutines) {b : Bool}
    → gs.group.crashed ≡ b
    → (if b then gs else go_live event gs) ≡ go_step event gs
unfolding go_step
go_step-decided event gs c = ap (λ d. if d then gs else go_live event gs) (sym c)

go_step-IsCounted :
    (event : GoEvent) (gs : Goroutines) → IsCounted gs → IsCounted (go_step event gs)
go_step-IsCounted event gs h = elim (Bool-cases gs.group.crashed) [
  | inl crashed ↦ subst IsCounted (go_step-decided event gs crashed) h
  | inr live ↦ subst IsCounted (go_step-decided event gs live) (go_live-IsCounted event gs (h live))
]

-- After any events, as long as no panic has ended the program, the counter of the WaitGroup is the number
-- of goroutines of RunWith and RunWithRecover that run.
pub go_run-IsCounted :
    (events : List GoEvent) (gs : Goroutines) → IsCounted gs → IsCounted (go_run events gs)
unfolding go_run
go_run-IsCounted [] gs h = h
go_run-IsCounted (event ∷ events) gs h =
    go_run-IsCounted events (go_step event gs) (go_step-IsCounted event gs h)

-- The program runs, and each goroutine that runs recovers its panic.
abbrev pub IsSafe : Goroutines → Type 0
IsSafe gs =
    (gs.group.crashed ≡ false)
    × ((gs.group.counter ≡ counted_goroutines gs.running) × All IsGuarded gs.running)

All-end :
    (xs ys : List Goroutine) (g : Goroutine)
    → All IsGuarded (xs ++ g ∷ ys)
    → IsGuarded g × All IsGuarded (xs ++ ys)
All-end [] ys g (h, hs) = (h, hs)
All-end (x ∷ xs) ys g (h, hs) = let (k, ks) = All-end xs ys g hs in (k, (h, ks))

EndAt-IsSafe :
    (all : List Goroutine) (e : ExecEnd) (w : WaitGroup) (gs : Goroutines)
    → IsSafe (record { running = all; group = w })
    → EndAt all e w gs
    → IsSafe gs
EndAt-IsSafe all e w gs h (out_of_range eq) = rw eq h
EndAt-IsSafe all e w gs (c, (n, hs)) (taken_out xs g ys whole eq) =
    let (guarded, others) = All-end xs ys g (rw whole at hs) in
    let counter = n ∙ ap counted_goroutines whole ∙ split_out xs ys g in
    let live = ends_goroutine-running g e w (counted_goroutines (xs ++ ys)) guarded c counter in
    rw eq
      (live, (ends_goroutine-counter g e w (counted_goroutines (xs ++ ys)) counter live, others))

go_live-IsSafe :
    (event : GoEvent) (gs : Goroutines)
    → IsGuardedEvent event
    → IsSafe gs
    → IsSafe (go_live event gs)
unfolding go_live
go_live-IsSafe (starts g) gs k (c, (n, hs)) =
    (add_one-crashed g gs.group c, (add_one-counter g gs.group ∙ ap (λ m. weight g + m) n, (k, hs)))
go_live-IsSafe (ends i e) gs k h =
    EndAt-IsSafe gs.running e gs.group _ h (end_at-EndAt gs.running [] i gs.running e gs.group refl)

go_step-IsSafe :
    (event : GoEvent) (gs : Goroutines)
    → IsGuardedEvent event
    → IsSafe gs
    → IsSafe (go_step event gs)
go_step-IsSafe event gs k (c, h) =
    subst IsSafe (go_step-decided event gs c) (go_live-IsSafe event gs k (c, h))

-- Where goroutines are started only by RunWithRecover and RunRecover, and their handlers are nil or do not
-- panic, then no panic ends the program, in whatever order the goroutines start and end, and the counter
-- is the number of goroutines of RunWithRecover that run.
pub go_run-IsSafe :
    (events : List GoEvent) (gs : Goroutines)
    → All IsGuardedEvent events
    → IsSafe gs
    → IsSafe (go_run events gs)
unfolding go_run
go_run-IsSafe [] gs hs h = h
go_run-IsSafe (event ∷ events) gs (k, hs) h =
    go_run-IsSafe events (go_step event gs) hs (go_step-IsSafe event gs k h)
