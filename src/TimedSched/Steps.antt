-- ===== src/TimedSched/Steps.antt =====
-- timesched.go, `TimedSched`: the tasks put and not yet taken, the goroutine `prepend` that hands
-- them on, the workers, and the steps in which they may take turns. A step stands for what one
-- goroutine does between two waits; `clock` is the time of the machine.
pub mod Invariant
pub mod Account
pub mod Settling
pub mod Emptying
pub mod Manned
pub mod Progress
use rudp_go.Common.{
  ℕ, zero, suc, ◌+◌, ◌-◌, ◌≤◌, ◌<◌, ◌≡◌, Bool, true, false, List, [], ◌∷◌, ◌++◌, Option, none, some,
  Outcome, done, panic, ◌>>=◌, ltb, leb, if◌then◌else◌, length, take,
}
use rudp_go.TimedSched.Heap.{TimeFunc}
use rudp_go.TimedSched.Worker.{Timer, Worker, Execution, new_worker, on_task, on_timer}

pub record Sched : Type 0 where
  pub prepend_tasks : List TimeFunc
  -- the capacity of `prependTasks`
  pub prepend_cap : ℕ
  -- a token in `chPrependNotify`, which holds one at most
  pub notified : Bool
  -- the calls of `Put` that have added their task and not come to the `select`
  pub putting : ℕ
  -- `tasks` of `prepend`: those not handed on yet, and the capacity
  pub batch : List TimeFunc
  pub batch_cap : ℕ
  pub preparing : Bool
  pub workers : List Worker
  -- what the workers that have returned had executed; their heaps are lost
  pub gone : List (List Execution)
  pub died : Bool
  pub clock : ℕ

abbrev pub new_workers : ℕ → ℕ → List Worker
new_workers clock zero = []
new_workers clock (suc n) = new_worker clock ∷ new_workers clock n

unfoldable pub new_timed_sched : ℕ → ℕ → Sched
unfolding new_worker
new_timed_sched clock parallel = record {
  prepend_tasks = [];
  prepend_cap = 0;
  notified = false;
  putting = 0;
  batch = [];
  batch_cap = 0;
  preparing = true;
  workers = new_workers clock parallel;
  gone = [];
  died = false;
  clock = clock;
}

-- `Put` under the lock, `room` being the slice's capacity after the `append`
unfoldable pub put_task : ℕ → ℕ → ℕ → Sched → Sched
put_task f ddl room s = record s {
  prepend_tasks = s.prepend_tasks ++ record { execute = some f; ts = ddl } ∷ [];
  prepend_cap = room;
  putting = s.putting + 1;
}

-- the `select` of `Put`
unfoldable pub put_notify : Sched → Sched
put_notify s = record s { notified = true; putting = s.putting - 1 }

-- `tasks[:n]`, which may go past the length and not past the capacity
abbrev reslice : ℕ → ℕ → Outcome ℕ
reslice n cap = if leb n cap then done n else panic

-- `case <-ts.chPrependNotify` of `prepend`, up to the loop
unfoldable pub prepare : Sched → Outcome Sched
prepare s =
    let cap = if ltb s.batch_cap s.prepend_cap then s.prepend_cap else s.batch_cap in
    reslice (length s.prepend_tasks) cap >>= λ n. done (record s {
      notified = false;
      batch = take n s.prepend_tasks;
      batch_cap = cap;
      prepend_tasks = [];
    })

abbrev pub timer_sends : ℕ → Worker → Worker
timer_sends clock w = record w { timer = record { armed = none; channel = some clock } }

-- `Close`, a second call of which does nothing
unfoldable pub close_sched : Sched → Sched
close_sched s = record s { died = true }

pub data Step : Sched → Sched → Type 0 where
  puts :
      {s : Sched} (f ddl room : ℕ) → length s.prepend_tasks < room → Step s (put_task f ddl room s)
  notifies : {s : Sched} → 0 < s.putting → Step s (put_notify s)
  prepares :
      {s t : Sched}
      → s.preparing ≡ true
      → s.notified ≡ true
      → s.batch ≡ []
      → prepare s ≡ done t
      → Step s t
  -- a worker receives the next task of the batch, and reads the time `now`
  hands :
      {s : Sched} (task : TimeFunc) (rest : List TimeFunc) (ws : List Worker) (w v : Worker)
      (us : List Worker) (now later : ℕ)
      → s.preparing ≡ true
      → s.batch ≡ task ∷ rest
      → s.workers ≡ ws ++ w ∷ us
      → s.clock ≤ now
      → now ≤ later
      → on_task now later task w ≡ done (some v)
      → Step s (record s { batch = rest; workers = ws ++ v ∷ us; clock = later })
  -- a timer that is armed for this time or an earlier one sends the time
  ends :
      {s : Sched} (ws : List Worker) (w : Worker) (us : List Worker) (t : ℕ)
      → s.workers ≡ ws ++ w ∷ us
      → w.timer ≡ record { armed = some t; channel = none }
      → t ≤ s.clock
      → Step s (record s { workers = ws ++ timer_sends s.clock w ∷ us })
  -- a worker receives that time
  receives :
      {s : Sched} (ws : List Worker) (w v : Worker) (us : List Worker) (now later : ℕ)
      → s.workers ≡ ws ++ w ∷ us
      → w.timer ≡ record { armed = none; channel = some now }
      → s.clock ≤ later
      → on_timer now later w ≡ done v
      → Step s (record s { workers = ws ++ v ∷ us; clock = later })
  ticks : {s : Sched} (later : ℕ) → s.clock ≤ later → Step s (record s { clock = later })
  closes : {s : Sched} → Step s (close_sched s)
  -- `case <-ts.die` of `prepend`, which drops what is left of its batch
  gives_up : {s : Sched} → s.died ≡ true → Step s (record s { preparing = false; batch = [] })
  -- `case <-ts.die` of `sched`: the worker returns, and the tasks in its heap are lost
  leaves :
      {s : Sched} (ws : List Worker) (w : Worker) (us : List Worker)
      → s.died ≡ true
      → s.workers ≡ ws ++ w ∷ us
      → Step s (record s { workers = ws ++ us; gone = w.executed ∷ s.gone })

pub data Reach (s : Sched) : Sched → Type 0 where
  here : Reach s s
  onward : {t u : Sched} → Reach s t → Step t u → Reach s u
