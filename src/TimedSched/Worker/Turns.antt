-- ===== src/TimedSched/Worker/Turns.antt =====
-- timesched.go:81-97, what a worker does with a task it receives.
use mathlib.Core.List.{Perm}
use mathlib.Core.List.Perm
use rudp_go.Common.{
  ℕ, ◌+◌, ◌-◌, ◌≤◌, ◌<◌, ◌≡◌, ◌⊎◌, inl, inr, refl, Bool-cases, List, ◌∷◌, Option, none, some, done,
  panic, ◌>>=◌, Returns, Returns-bind, All-append, Perm-All, arith, ltb, index-done,
}
use rudp_go.TimedSched.Heap.{TimeFunc, no_task, push}
use rudp_go.TimedSched.Heap.Order.{key}
use rudp_go.TimedSched.Heap.Queue.{Pushed, push_lem}
use rudp_go.TimedSched.Worker.{Worker, run_task, rearm, on_task}
use rudp_go.TimedSched.Worker.Timing.{
  IsFunc, IsFunc-prop, IsCallable, IsLate, WellTimed, halt_lem, off, ran,
}

called :
    (now : ℕ) (task : TimeFunc) (w : Worker) (f : Option ℕ)
    → IsCallable f
    → elim f [ none ↦ panic | some g ↦ done (ran now task w) ] ≡ done (ran now task w)
called now task w none h = elim h [ ]
called now task w (some g) h = refl

pub run_task-done :
    (now : ℕ) (task : TimeFunc) (w : Worker)
    → IsFunc task
    → run_task now task w ≡ done (ran now task w)
unfolding run_task
run_task-done now task w f = called now task w task.execute f

-- The worker `v` has the task of `w`'s turn: called at once, or among its tasks.
pub record Taken (now clock : ℕ) (task : TimeFunc) (w v : Worker) : Type 0 where
  pub steady : WellTimed v
  pub either :
      ((task.ts < now) × (v ≡ ran now task w))
      ⊎ ((now ≤ task.ts)
          × Perm v.tasks (task ∷ w.tasks)
          × (v.executed ≡ w.executed)
          × (v.timer ≡ record { armed = some (clock + (key v.tasks 0 - now)); channel = none }))

abbrev pub IsTaken : ℕ → ℕ → TimeFunc → Worker → Option Worker → Type 0
IsTaken now clock task w none = ⊥
IsTaken now clock task w (some v) = Taken now clock task w v

ran-WellTimed :
    (now : ℕ) (task : TimeFunc) (w : Worker)
    → task.ts < now
    → WellTimed w
    → WellTimed (ran now task w)
ran-WellTimed now task w h s = record {
  ordered = s.ordered;
  funcs = s.funcs;
  late = All-append IsLate w.executed _ s.late (h, tt);
  ready = s.ready;
}

-- The turn of a task that is not due yet, once it is among the worker's tasks.
rearmed :
    (now clock : ℕ) (task : TimeFunc) (w : Worker)
    → WellTimed w
    → IsFunc task
    → (g : List TimeFunc) → Pushed w.tasks task g
    → now ≤ task.ts
    → Returns
        (rearm now clock (record w { tasks = g; timer = off }) >>= λ v. done (some v))
        (IsTaken now clock task w)
unfolding rearm
rearmed now clock task w s f g q h = rw (index-done no_task g 0 (omega (arith, q.size))) (record {
  steady = record {
    ordered = q.ordered;
    funcs = Perm-All IsFunc IsFunc-prop (Perm.symm q.same) (f, s.funcs);
    late = s.late;
    ready = tt;
  };
  either = inr (h, q.same, refl, refl);
})

-- A worker whose heap, functions and timer are in order receives a task whose function is not nil:
-- the turn returns, without a panic and without waiting for ever for the timer's channel; the
-- worker is in order afterwards. If the task's time has passed, its function is called, and
-- nothing else changes; else the task is with the others in the heap, nothing is called, and the
-- timer is armed for the first entry of the heap.
pub on_task_lem :
    (now clock : ℕ) (task : TimeFunc) (w : Worker)
    → WellTimed w
    → IsFunc task
    → Returns (on_task now clock task w) (IsTaken now clock task w)
unfolding on_task
on_task_lem now clock task w s f = elim (Bool-cases (ltb task.ts now)) [
  | inl e ↦
      rw (e, run_task-done now task w f)
        (record {
          steady = ran-WellTimed now task w (ground arith) s;
          either = inl (ground arith, refl);
        })
  | inr e ↦
      rw (e, halt_lem w.all_done w.timer.armed w.timer.channel w.tasks s.ready)
        (Returns-bind (push w.tasks task) _ (Pushed w.tasks task) (IsTaken now clock task w)
          (push_lem w.tasks task s.ordered)
          (λ g q. rearmed now clock task w s f g q (ground arith)))
]
