-- ===== src/TimedSched/Worker/Timing.antt =====
-- timesched.go, the state that `sched` keeps between two turns.
use mathlib.Core.HLevel.{⊥_prop}
use rudp_go.Common.{
  ℕ, ◌<◌, ◌≡◌, refl, Bool, true, false, List, [], ◌∷◌, ◌++◌, Option, none, some, All, arith,
}
use rudp_go.TimedSched.Heap.{TimeFunc}
use rudp_go.TimedSched.Heap.Order.{IsHeap}
use rudp_go.TimedSched.Worker.{Timer, Execution, Worker, halt, new_worker}

-- A function that is not `nil`.
abbrev pub IsCallable : Option ℕ → Type 0
IsCallable none = ⊥
IsCallable (some f) = Unit {0}

abbrev pub IsFunc : TimeFunc → Type 0
IsFunc t = IsCallable t.execute

IsCallable-prop : (f : Option ℕ) → IsProp (IsCallable f)
IsCallable-prop none = ⊥_prop
IsCallable-prop (some f) = λ u v. refl

pub IsFunc-prop : (t : TimeFunc) → IsProp (IsFunc t)
IsFunc-prop t = IsCallable-prop t.execute

-- Called after its time.
abbrev pub IsLate : Execution → Type 0
IsLate e = e.task.ts < e.at_time

-- What `allDone` says: false while the timer is armed or has a time to be received, and true after
-- a turn that left no task.
abbrev pub IsReady : Bool → Option ℕ → Option ℕ → List TimeFunc → Type 0
IsReady true none none tasks = tasks ≡ []
IsReady false (some t) none tasks = Unit {0}
IsReady false none (some t) tasks = Unit {0}
IsReady _ _ _ tasks = ⊥

pub record WellTimed (w : Worker) : Type 0 where
  pub ordered : IsHeap w.tasks
  pub funcs : All IsFunc w.tasks
  pub late : All IsLate w.executed
  pub ready : IsReady w.all_done w.timer.armed w.timer.channel w.tasks

-- The timer stopped and its channel emptied.
abbrev pub off : Timer
off = record { armed = none; channel = none }

pub halt_lem :
    (all_done : Bool) (armed channel : Option ℕ) (tasks : List TimeFunc)
    → IsReady all_done armed channel tasks
    → halt all_done (record { armed = armed; channel = channel }) ≡ some off
unfolding halt
halt_lem true none none tasks h = refl
halt_lem false (some t) none tasks h = refl
halt_lem false none (some t) tasks h = refl
halt_lem true (some t) c tasks h = elim h [ ]
halt_lem true none (some t) tasks h = elim h [ ]
halt_lem false none none tasks h = elim h [ ]
halt_lem false (some t) (some c) tasks h = elim h [ ]

-- The worker after one call of a task's function.
abbrev pub ran : ℕ → TimeFunc → Worker → Worker
ran now task w = record w { executed = w.executed ++ record { task = task; at_time = now } ∷ [] }

pub new_worker-WellTimed : (clock : ℕ) → WellTimed (new_worker clock)
unfolding new_worker
new_worker-WellTimed clock = record {
  ordered = λ c p q. absurd (omega arith);
  funcs = tt;
  late = tt;
  ready = tt;
}
