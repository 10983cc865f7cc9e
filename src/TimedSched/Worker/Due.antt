-- ===== src/TimedSched/Worker/Due.antt =====
-- timesched.go:98-109, what a worker does when its timer ends.
use mathlib.Core.List.{Perm}
use mathlib.Core.List.Perm
use mathlib.Core.Path.{subst}
use native.Mathlib.Bridge.{le_prop}
use rudp_go.Common.{
  ℕ, zero, suc, ◌+◌, ◌-◌, ◌≤◌, ◌<◌, ◌≡◌, refl, sym, ◌∙◌, lt→ltb, true, Bool-cases, inl, inr, List,
  [], ◌∷◌, ◌++◌, append_assoc, append-nil, none, some, Returns, Returns-bind, Returns-mono, All,
  All-append, Perm-All, entries-All, arith, ltb, length,
}
use rudp_go.TimedSched.Heap.{TimeFunc, no_task, pop}
use rudp_go.TimedSched.Heap.Order.{IsHeap, key, root_least}
use rudp_go.TimedSched.Heap.Queue.{Popped, pop_lem}
use rudp_go.TimedSched.Worker.{Timer, Execution, Worker, rearm, run_due, on_timer}
use rudp_go.TimedSched.Worker.Timing.{IsFunc, IsFunc-prop, IsLate, WellTimed, off}
use rudp_go.TimedSched.Worker.Turns.{run_task-done}

abbrev pub executions : ℕ → List TimeFunc → List Execution
executions now [] = []
executions now (t ∷ ts) = record { task = t; at_time = now } ∷ executions now ts

abbrev pub IsFrom : ℕ → TimeFunc → Type 0
IsFrom lo t = lo ≤ t.ts

abbrev pub IsBefore : ℕ → TimeFunc → Type 0
IsBefore now t = t.ts < now

-- From the earliest on, none before `lo`.
abbrev pub IsAscending : ℕ → List TimeFunc → Type 0
IsAscending lo [] = Unit {0}
IsAscending lo (t ∷ ts) = (lo ≤ t.ts) × IsAscending t.ts ts

abbrev pub timer_for : ℕ → ℕ → List TimeFunc → Timer
timer_for now clock [] = off
timer_for now clock (t ∷ ts) = record { armed = some (clock + (t.ts - now)); channel = none }

-- What becomes of `tasks` at the time `now`, with `before` executed already: `run` are executed,
-- and the worker `v` keeps the rest.
pub record Drained (lo now clock : ℕ) (tasks : List TimeFunc) (before : List Execution) (v : Worker)
    : Type 0 where
  pub steady : WellTimed v
  pub run : List TimeFunc
  pub executed : v.executed ≡ before ++ executions now run
  pub overdue : All (IsBefore now) run
  pub ascending : IsAscending lo run
  pub same : Perm (run ++ v.tasks) tasks
  pub waiting : All (IsFrom now) v.tasks
  pub timer : v.timer ≡ timer_for now clock v.tasks

abbrev running : List TimeFunc → List Execution → Worker
running tasks before = record { tasks = tasks; timer = off; all_done = true; executed = before }

IsFrom-prop : (lo : ℕ) (t : TimeFunc) → IsProp (IsFrom lo t)
IsFrom-prop lo t = le_prop

rests :
    (lo now clock : ℕ) (tasks : List TimeFunc) (before : List Execution)
    → IsHeap tasks
    → All IsFunc tasks
    → All IsLate before
    → 0 < length tasks
    → now ≤ key tasks 0
    → Returns (rearm now clock (running tasks before)) (Drained lo now clock tasks before)
unfolding rearm
rests lo now clock [] before o f l pos h = absurd (omega arith)
rests lo now clock (t ∷ ts) before o f l pos h = record {
  steady = record { ordered = o; funcs = f; late = l; ready = tt };
  run = [];
  executed = sym (append-nil before);
  overdue = tt;
  ascending = tt;
  same = Perm.rfl;
  waiting =
      entries-All (IsFrom now) no_task (t ∷ ts)
        (λ i e. omega (arith, root_least (length (t ∷ ts)) (t ∷ ts) i o e));
  timer = refl;
}

-- One task executed, then the others.
after_one :
    (lo now clock : ℕ) (tasks : List TimeFunc) (before : List Execution) (t : TimeFunc)
    (rest : List TimeFunc)
    → lo ≤ t.ts
    → t.ts < now
    → Perm (t ∷ rest) tasks
    → (v : Worker)
    → Drained t.ts now clock rest (before ++ record { task = t; at_time = now } ∷ []) v
    → Drained lo now clock tasks before v
after_one lo now clock tasks before t rest from due same v d = record {
  steady = d.steady;
  run = t ∷ d.run;
  executed = d.executed ∙ append_assoc before _ _;
  overdue = (due, d.overdue);
  ascending = (from, d.ascending);
  same = Perm.trans (Perm.cons t d.same) same;
  waiting = d.waiting;
  timer = d.timer;
}

run_due_lem :
    (fuel lo now clock : ℕ) (tasks : List TimeFunc) (before : List Execution)
    → length tasks < fuel
    → IsHeap tasks
    → All IsFunc tasks
    → All IsLate before
    → All (IsFrom lo) tasks
    → Returns (run_due fuel now clock (running tasks before)) (Drained lo now clock tasks before)
unfolding run_due
run_due_lem zero lo now clock tasks before enough o f l from = absurd (omega arith)
run_due_lem (suc fuel) lo now clock [] before enough o f l from = record {
  steady = record { ordered = o; funcs = f; late = l; ready = refl };
  run = [];
  executed = sym (append-nil before);
  overdue = tt;
  ascending = tt;
  same = Perm.rfl;
  waiting = tt;
  timer = refl;
}
run_due_lem (suc fuel) lo now clock (x ∷ xs) before enough o f l from =
    elim (Bool-cases (ltb x.ts now)) [
      | inr e ↦
          rw (lt→ltb 0 (length (x ∷ xs)) (omega arith), e)
            (rests lo now clock (x ∷ xs) before o f l (omega arith) (ground arith))
      | inl e ↦
          rw (lt→ltb 0 (length (x ∷ xs)) (omega arith), e)
            (Returns-bind (pop (x ∷ xs)) _ (Popped (x ∷ xs)) (Drained lo now clock (x ∷ xs) before)
              (pop_lem (x ∷ xs) o (omega arith))
              (λ r p.
                let parts = Perm-All IsFunc IsFunc-prop (Perm.symm p.same) f in
                let due : r.0.ts < now = ground (arith, p.least 0 (omega arith)) in
                let later =
                  Perm-All (IsFrom r.0.ts) (IsFrom-prop r.0.ts) (Perm.symm p.same)
                    (entries-All (IsFrom r.0.ts) no_task (x ∷ xs) p.least) in
                rw (run_task-done now r.0 (running r.1 before) parts.0) (
                  Returns-mono (run_due fuel now clock (running r.1 _))
                    (Drained r.0.ts now clock r.1 _) (Drained lo now clock (x ∷ xs) before)
                    (run_due_lem fuel r.0.ts now clock r.1
                      (before ++ record { task = r.0; at_time = now } ∷ []) (omega (arith, p.size))
                      p.ordered parts.1 (All-append IsLate before _ l (due, tt)) later.1)
                    (after_one lo now clock (x ∷ xs) before r.0 r.1 (rw p.first from.0) due
                      p.same))))
    ]

-- A worker whose heap, functions and timer are in order receives the time `now` from its timer: the
-- turn returns; it calls the functions of tasks whose times have passed, one by one from the
-- earliest on, each once; all the tasks that it keeps have the time `now` or a later one; called
-- and kept tasks together are those it had; the timer is armed for the first task kept, or is off
-- if none is; and the worker is in order again.
pub on_timer_lem :
    (now clock : ℕ) (w : Worker)
    → WellTimed w
    → w.timer ≡ record { armed = none; channel = some now }
    → Returns (on_timer now clock w) (Drained 0 now clock w.tasks w.executed)
unfolding on_timer
on_timer_lem now clock w s sent =
    subst
      (λ t.
        Returns
          (run_due (length w.tasks + 1) now clock
            (record w { timer = record t { channel = none }; all_done = true }))
          (Drained 0 now clock w.tasks w.executed))
      (sym sent)
      (run_due_lem (length w.tasks + 1) 0 now clock w.tasks w.executed (omega arith) s.ordered
        s.funcs s.late (entries-All (IsFrom 0) no_task w.tasks (λ i e. omega arith)))
