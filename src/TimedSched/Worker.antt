-- ===== src/TimedSched/Worker.antt =====
-- timesched.go, `sched`: one worker, its timer, and what it does at a new task and at the timer's
-- end. The timer is that of Go 1.17: `Stop` and `Reset` leave its channel as it is.
pub mod Timing
pub mod Turns
pub mod Due
use rudp_go.Common.{
  ℕ, zero, suc, ◌+◌, ◌-◌, Bool, true, false, ◌||◌, List, [], ◌∷◌, ◌++◌, Option, none, some, Outcome,
  done, panic, out_of_fuel, ◌>>=◌, ltb, if◌then◌else◌, length, index,
}
use rudp_go.TimedSched.Heap.{TimeFunc, push, pop}

-- `armed` is the time it will send at, and `channel` a time sent and not yet received.
pub record Timer : Type 0 where
  pub armed : Option ℕ
  pub channel : Option ℕ

abbrev pub is_some : Option ℕ → Bool
is_some none = false
is_some (some t) = true

abbrev pub stop_timer : Timer → Bool × Timer
stop_timer timer = (is_some timer.armed, record timer { armed = none })

-- `Reset`, called at the time `clock`
abbrev pub reset_timer : ℕ → ℕ → Timer → Timer
reset_timer clock wait timer = record timer { armed = some (clock + wait) }

-- One call of a task's function: the task and the `now` it was compared with.
pub record Execution : Type 0 where
  pub task : TimeFunc
  pub at_time : ℕ

pub record Worker : Type 0 where
  pub tasks : List TimeFunc
  pub timer : Timer
  pub all_done : Bool
  pub executed : List Execution

-- NewTimer(0), called at the time `clock`
unfoldable pub new_worker : ℕ → Worker
new_worker clock = record {
  tasks = [];
  timer = record { armed = some clock; channel = none };
  all_done = false;
  executed = [];
}

unfoldable pub run_task : ℕ → TimeFunc → Worker → Outcome Worker
run_task now task w = elim task.execute [
  | none ↦ panic
  | some f ↦ done (record w { executed = w.executed ++ record { task = task; at_time = now } ∷ [] })
]

-- The timer stopped and its channel emptied; `none` where the receive has nothing to wait for.
unfoldable pub halt : Bool → Timer → Option Timer
halt all_done timer =
    let (stopped, t) = stop_timer timer in
    if stopped || all_done
    then some t
    else elim t.channel [ none ↦ none | some sent ↦ some (record t { channel = none }) ]

-- The timer is set for the first task of the heap.
unfoldable pub rearm : ℕ → ℕ → Worker → Outcome Worker
rearm now clock w = index w.tasks 0 >>= λ first.
    done (record w { timer = reset_timer clock (first.ts - now) w.timer; all_done = false })

-- `case task := <-ts.chTask`, with `now` the time read and `clock` the time of the `Reset`.
-- `none` is a worker that waits for ever.
unfoldable pub on_task : ℕ → ℕ → TimeFunc → Worker → Outcome (Option Worker)
unfolding run_task halt rearm push
on_task now clock task w =
    let wait : Outcome (Option Worker) = push w.tasks task >>= λ tasks.
    elim (halt w.all_done w.timer) [
      | none ↦ done none
      | some t ↦ rearm now clock (record w { tasks = tasks; timer = t }) >>= λ v. done (some v)
    ] in
    let at_once = run_task now task w >>= λ v. done (some v) in
    if ltb task.ts now then at_once else wait

-- `for len(tasks) > 0`
pub run_due : ℕ → ℕ → ℕ → Worker → Outcome Worker
unfolding run_task rearm pop
run_due zero now clock w = out_of_fuel
run_due (suc fuel) now clock w =
    let step : Outcome Worker = index w.tasks 0 >>= λ first.
    let due = pop w.tasks >>= λ popped.
    run_task now popped.0 (record w { tasks = popped.1 }) >>= run_due fuel now clock in
    if ltb first.ts now then due else rearm now clock w in
    if ltb 0 (length w.tasks) then step else done w

-- `case now := <-timer.C`
unfoldable pub on_timer : ℕ → ℕ → Worker → Outcome Worker
unfolding run_due
on_timer now clock w =
    run_due (length w.tasks + 1) now clock
      (record w { timer = record w.timer { channel = none }; all_done = true })
