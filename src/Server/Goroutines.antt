-- ===== src/Server/Goroutines.antt =====
-- core/waitgroup.go: functions that run in goroutines of their own, whether a WaitGroup counts them, and
-- what a panic of theirs does.
pub mod Counted
use report_api.Prelude.{
  ℕ, zero, suc, Bool, true, false, Option, none, some, List, [], ◌∷◌, ◌++◌, if◌then◌else◌,
}
use report_api.Go.Result.{Panic}

-- `recoverFn`, which may panic itself; `none` where it is nil. That of RunRecover gets the text of the
-- panic.
abbrev pub RecoverFn : Type 0
RecoverFn = Option (Panic → Option Panic)

-- A goroutine of RunWith, RunWithRecover or RunRecover.
pub data Goroutine : Type 0 where
  run_with : Goroutine
  run_with_recover run_recover : RecoverFn → Goroutine

-- How `exec` ends.
pub data ExecEnd : Type 0 where
  finished : ExecEnd
  panicked : Panic → ExecEnd

-- The counter of the WaitGroup, the panics whose stack was printed, the latest first, and whether a panic
-- that nothing recovers has ended the program.
pub record WaitGroup : Type 0 where
  pub counter : ℕ
  pub dumped : List Panic
  pub crashed : Bool

unfoldable pub crash : WaitGroup → WaitGroup
crash w = record w { crashed = true }

-- `w.Done()`, which panics where the counter is 0.
unfoldable pub done : ℕ → WaitGroup → WaitGroup
unfolding crash
done zero w = crash w
done (suc n) w = record w { counter = n }

unfoldable pub dump : Panic → WaitGroup → WaitGroup
dump p w = record w { dumped = p ∷ w.dumped }

unfoldable pub add_one : Goroutine → WaitGroup → WaitGroup
add_one run_with w = record w { counter = suc w.counter }
add_one (run_with_recover recover_fn) w = record w { counter = suc w.counter }
add_one (run_recover recover_fn) w = w

-- The panic that `recoverFn` ends with, if any, after the stack was printed.
unfoldable pub recovered : RecoverFn → Panic → WaitGroup → Option Panic × WaitGroup
unfolding dump
recovered none p w = (none, w)
recovered (some recover_fn) p w = (recover_fn p, dump p w)

-- `w.Done()` follows `recoverFn` in the same deferred function, and is not reached where that panics.
unfoldable pub done_after : Option Panic × WaitGroup → WaitGroup
unfolding done crash
done_after (none, w) = done w.counter w
done_after (some p, w) = crash w

unfoldable pub ended_after : Option Panic × WaitGroup → WaitGroup
unfolding crash
ended_after (none, w) = w
ended_after (some p, w) = crash w

unfoldable pub ends_goroutine : Goroutine → ExecEnd → WaitGroup → WaitGroup
unfolding done done_after ended_after recovered crash
ends_goroutine run_with finished w = done w.counter w
ends_goroutine run_with (panicked p) w = crash (done w.counter w)
ends_goroutine (run_with_recover recover_fn) finished w = done w.counter w
ends_goroutine (run_with_recover recover_fn) (panicked p) w = done_after (recovered recover_fn p w)
ends_goroutine (run_recover recover_fn) finished w = w
ends_goroutine (run_recover recover_fn) (panicked p) w = ended_after (recovered recover_fn p w)

-- The goroutines that run, and the WaitGroup.
pub record Goroutines : Type 0 where
  pub running : List Goroutine
  pub group : WaitGroup

unfoldable pub no_goroutines : Goroutines
no_goroutines = record {
  running = [];
  group = record { counter = 0; dumped = []; crashed = false };
}

-- A call that starts a goroutine, or the end of the running goroutine at a position.
pub data GoEvent : Type 0 where
  starts : Goroutine → GoEvent
  ends : ℕ → ExecEnd → GoEvent

-- The goroutine at a position ends; the first argument holds those before it.
unfoldable pub end_at : List Goroutine → ℕ → List Goroutine → ExecEnd → WaitGroup → Goroutines
unfolding ends_goroutine
end_at before i [] e w = record { running = before; group = w }
end_at before zero (g ∷ after) e w = record {
  running = before ++ after;
  group = ends_goroutine g e w;
}
end_at before (suc i) (g ∷ after) e w = end_at (before ++ g ∷ []) i after e w

unfoldable pub go_live : GoEvent → Goroutines → Goroutines
unfolding add_one end_at
go_live (starts g) gs = record { running = g ∷ gs.running; group = add_one g gs.group }
go_live (ends i e) gs = end_at [] i gs.running e gs.group

-- Nothing happens in a program that has ended.
unfoldable pub go_step : GoEvent → Goroutines → Goroutines
unfolding go_live
go_step event gs = if gs.group.crashed then gs else go_live event gs

unfoldable pub go_run : List GoEvent → Goroutines → Goroutines
unfolding go_step
go_run [] gs = gs
go_run (event ∷ events) gs = go_run events (go_step event gs)

-- `Wait` calls itself. `none` is a run that has no fuel for the next call.
unfoldable pub wait_group_wait : ℕ → Goroutines → Option Goroutines
wait_group_wait zero gs = none
wait_group_wait (suc fuel) gs = wait_group_wait fuel gs
