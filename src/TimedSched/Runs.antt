-- ===== src/TimedSched/Runs.antt =====
-- The scheduler of timesched.go at concrete states.
use rudp_go.Common.{
  ◌⊎◌, ◌+◌, ℕ, zero, suc, ◌≡◌, refl, true, false, List, [], ◌∷◌, none, some, Returns, All, count,
  arith,
}
use rudp_go.TimedSched.Heap.{TimeFunc, pop}
use rudp_go.TimedSched.Heap.Order.{IsHeap}
use rudp_go.TimedSched.Heap.Queue.{Popped, pop_lem}
use rudp_go.TimedSched.Worker.{Worker, new_worker, on_task, on_timer, run_task, halt, rearm}
use rudp_go.TimedSched.Worker.Timing.{IsLate, new_worker-WellTimed}
use rudp_go.TimedSched.Worker.Turns.{IsTaken, on_task_lem}
use rudp_go.TimedSched.Worker.Due.{Drained, on_timer_lem}
use rudp_go.TimedSched.Steps.{
  Sched, new_timed_sched, put_task, put_notify, prepare, close_sched, Reach, here, onward, puts,
  notifies, prepares, hands, closes, leaves,
}
use rudp_go.TimedSched.Steps.Invariant.{HasRunLate, none_early, prepared}
use rudp_go.TimedSched.Steps.Account.{held_count, put_tasks, lost_tasks, tasks_kept}
use rudp_go.TimedSched.Steps.Progress.{RunToEnd, tasks_executed}

abbrev task : ℕ → ℕ → TimeFunc
task f t = record { execute = some f; ts = t }

-- Not sorted, but a heap.
abbrev three : List TimeFunc
three = task 1 10 ∷ task 2 30 ∷ task 3 20 ∷ []

three-IsHeap : IsHeap three
three-IsHeap zero p q = absurd (omega arith)
three-IsHeap (suc zero) p q = omega arith
three-IsHeap (suc (suc zero)) p q = omega arith
three-IsHeap (suc (suc (suc c))) p q = absurd (omega arith)

pop_lem_example : Returns (pop three) (Popped three)
pop_lem_example = pop_lem three three-IsHeap (omega arith)

on_task_lem_example :
    Returns (on_task 5 6 (task 1 10) (new_worker 0)) (IsTaken 5 6 (task 1 10) (new_worker 0))
on_task_lem_example = on_task_lem 5 6 (task 1 10) (new_worker 0) (new_worker-WellTimed 0) tt

-- The time 25 has been sent: two of the three tasks are due.
abbrev worker : Worker
worker = record {
  tasks = three;
  timer = record { armed = none; channel = some 25 };
  all_done = false;
  executed = [];
}

on_timer_lem_example : Returns (on_timer 25 26 worker) (Drained 0 25 26 three [])
on_timer_lem_example =
    on_timer_lem 25 26 worker
      (record { ordered = three-IsHeap; funcs = (tt, (tt, (tt, tt))); late = tt; ready = tt }) refl

-- A task is put, and `prepend` is told of it.
abbrev one_put : Sched
one_put = put_notify (put_task 7 5 4 (new_timed_sched 0 2))

one_put-Reach : Reach (new_timed_sched 0 2) one_put
unfolding new_timed_sched put_task
one_put-Reach = onward (onward here (puts 7 5 4 (omega arith))) (notifies (omega arith))

-- One task is late when the worker receives it, at 6, and is executed; another, which is due at 20,
-- is in the worker's heap when the scheduler is closed, and is lost with the worker.
abbrev served : Sched
served = record (prepared one_task) { batch = []; workers = after_first ∷ []; clock = 6 }
  where
    one_task : Sched
    one_task = put_notify (put_task 7 5 4 (new_timed_sched 0 1))

    after_first : Worker
    after_first = record (new_worker 0) { executed = record { task = task 7 5; at_time = 6 } ∷ [] }

served-Reach : Reach (new_timed_sched 0 1) served
unfolding new_timed_sched put_task put_notify prepare new_worker on_task run_task
served-Reach =
    onward
      (onward (onward (onward here (puts 7 5 4 (omega arith))) (notifies (omega arith)))
        (prepares refl refl refl refl))
      (hands (task 7 5) [] [] (new_worker 0) _ [] 6 6 refl refl refl (omega arith) (omega arith)
        refl)

abbrev closed : Sched
closed = record (prepared (put_notify (put_task 9 20 4 served))) {
  batch = [];
  workers = [];
  gone = (record { task = task 7 5; at_time = 6 } ∷ []) ∷ [];
  died = true;
  clock = 7;
}

closed-Reach : Reach (new_timed_sched 0 1) closed
unfolding new_timed_sched put_task put_notify prepare close_sched new_worker on_task run_task halt
    rearm
closed-Reach =
    onward
      (onward
        (onward
          (onward
            (onward (onward served-Reach (puts 9 20 4 (omega arith))) (notifies (omega arith)))
            (prepares refl refl refl refl))
          (hands (task 9 20) [] [] _ with_second [] 7 7 refl refl refl (omega arith) (omega arith)
            refl))
        closes)
      (leaves [] with_second [] refl refl)
  where
    with_second : Worker
    with_second = record {
      tasks = task 9 20 ∷ [];
      timer = record { armed = some 20; channel = none };
      all_done = false;
      executed = record { task = task 7 5; at_time = 6 } ∷ [];
    }

tasks_kept_example :
    (held_count (λ t. true) closed + count (λ t. true) (lost_tasks closed-Reach)
      ≡ count (λ t. true) (put_tasks closed-Reach))
    × ((closed.died ≡ true) ⊎ (lost_tasks closed-Reach ≡ []))
tasks_kept_example = tasks_kept 0 1 closed-Reach (λ t. true)

none_early_example : All HasRunLate served.workers × All (All IsLate) served.gone
none_early_example = none_early 0 1 served-Reach

tasks_executed_example : RunToEnd 0 2 one_put-Reach
unfolding new_timed_sched put_task put_notify
tasks_executed_example = tasks_executed 0 2 one_put-Reach (omega arith) refl
