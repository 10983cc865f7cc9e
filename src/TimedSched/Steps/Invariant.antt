-- ===== src/TimedSched/Steps/Invariant.antt =====
-- timesched.go, the state of the scheduler between two steps.
use mathlib.Core.Path.{subst}
use rudp_go.Common.{
  ℕ, zero, suc, ◌≤◌, ◌<◌, ◌≡◌, ◌⊎◌, inl, inr, refl, sym, ◌∙◌, Bool, true, false, List, [], ◌∷◌,
  ◌++◌, none, some, done, ltb, leb, if◌then◌else◌, length, take-length, All, All-append, All-mono,
  arith, Returns, length-append,
}
use rudp_go.TimedSched.Heap.{TimeFunc}
use rudp_go.TimedSched.Worker.{Worker, on_task, on_timer}
use rudp_go.TimedSched.Worker.Timing.{IsFunc, IsLate, WellTimed, IsReady, new_worker-WellTimed}
use rudp_go.TimedSched.Worker.Turns.{Taken, IsTaken, on_task_lem}
use rudp_go.TimedSched.Worker.Due.{Drained, on_timer_lem}
use rudp_go.TimedSched.Steps.{
  Sched, new_workers, new_timed_sched, put_task, put_notify, prepare, close_sched, timer_sends,
  Step, puts, notifies, prepares, hands, ends, receives, ticks, closes, gives_up, leaves, Reach,
  here, onward,
}

abbrev pub HasRunLate : Worker → Type 0
HasRunLate w = All IsLate w.executed

-- New tasks have a token in the channel, or a call of `Put` that will send one.
abbrev pub IsWoken : List TimeFunc → Bool → ℕ → Type 0
IsWoken tasks notified putting = (tasks ≡ []) ⊎ ((notified ≡ true) ⊎ (0 < putting))

pub record Sound (s : Sched) : Type 0 where
  pub prepended : All IsFunc s.prepend_tasks
  pub room : length s.prepend_tasks ≤ s.prepend_cap
  pub woken : IsWoken s.prepend_tasks s.notified s.putting
  pub batched : All IsFunc s.batch
  pub timed : All WellTimed s.workers
  pub gone_late : All (All IsLate) s.gone

pub All-split {ℓ κ} :
    {A : Type ℓ} (P : A → Type κ) (xs ys : List A) → All P (xs ++ ys) → All P xs × All P ys
All-split P [] ys h = (tt, h)
All-split P (x ∷ xs) ys h = let rest = All-split P xs ys h.1 in ((h.0, rest.0), rest.1)

-- The worker that a step is about, and the others.
pub worker-WellTimed :
    {s : Sched} (ws : List Worker) (w : Worker) (us : List Worker)
    → Sound s
    → s.workers ≡ ws ++ w ∷ us
    → All WellTimed ws × (WellTimed w × All WellTimed us)
worker-WellTimed ws w us i e = All-split WellTimed ws (w ∷ us) (subst (All WellTimed) e i.timed)

pub with_worker :
    (ws : List Worker) (w v : Worker) (us : List Worker)
    → All WellTimed ws × (WellTimed w × All WellTimed us)
    → WellTimed v
    → All WellTimed (ws ++ v ∷ us)
with_worker ws w v us h k = All-append WellTimed ws (v ∷ us) h.0 (k, h.1.1)

-- What `prepare` comes to, which the capacities allow.
abbrev pub prepared : Sched → Sched
prepared s = record s {
  notified = false;
  batch = s.prepend_tasks;
  batch_cap = if ltb s.batch_cap s.prepend_cap then s.prepend_cap else s.batch_cap;
  prepend_tasks = [];
}

pub prepare-done :
    (s : Sched) → length s.prepend_tasks ≤ s.prepend_cap → prepare s ≡ done (prepared s)
unfolding prepare
prepare-done s h =
    let fits : leb (length s.prepend_tasks)
          (if ltb s.batch_cap s.prepend_cap then s.prepend_cap else s.batch_cap)
        ≡ true =
      ground arith in
    rw (fits, take-length (length s.prepend_tasks) s.prepend_tasks (omega arith)) refl

pub Taken-of :
    (now later : ℕ) (task : TimeFunc) (w v : Worker)
    → WellTimed w
    → IsFunc task
    → on_task now later task w ≡ done (some v)
    → Taken now later task w v
Taken-of now later task w v h f e =
    subst (λ o. Returns o (IsTaken now later task w)) e (on_task_lem now later task w h f)

pub Drained-of :
    (now later : ℕ) (w v : Worker)
    → WellTimed w
    → w.timer ≡ record { armed = none; channel = some now }
    → on_timer now later w ≡ done v
    → Drained 0 now later w.tasks w.executed v
Drained-of now later w v h sent e =
    subst (λ o. Returns o (Drained 0 now later w.tasks w.executed)) e
      (on_timer_lem now later w h sent)

fire-WellTimed :
    (clock t : ℕ) (w : Worker)
    → w.timer ≡ record { armed = some t; channel = none }
    → WellTimed w
    → WellTimed (timer_sends clock w)
fire-WellTimed clock t w e h = record {
  ordered = h.ordered;
  funcs = h.funcs;
  late = h.late;
  ready = still w.all_done (subst (λ r. IsReady w.all_done r.armed r.channel w.tasks) e h.ready);
}
  where
    still : (b : Bool) → IsReady b (some t) none w.tasks → IsReady b none (some clock) w.tasks
    still true k = elim k [ ]
    still false k = tt

pub Step-Sound : {s t : Sched} → Step s t → Sound s → Sound t
unfolding put_task put_notify close_sched
Step-Sound {s} (puts f ddl room h) i = record {
  prepended = All-append IsFunc s.prepend_tasks _ i.prepended (tt, tt);
  room = omega (arith, length-append s.prepend_tasks (record { execute = some f; ts = ddl } ∷ []));
  woken = inr (inr (omega arith));
  batched = i.batched;
  timed = i.timed;
  gone_late = i.gone_late;
}
Step-Sound (notifies h) i = record {
  prepended = i.prepended;
  room = i.room;
  woken = inr (inl refl);
  batched = i.batched;
  timed = i.timed;
  gone_late = i.gone_late;
}
Step-Sound {s} (prepares live token idle e) i =
    subst (λ o. Returns o Sound) (sym (prepare-done s i.room) ∙ e)
      (record {
        prepended = tt;
        room = omega arith;
        woken = inl refl;
        batched = i.prepended;
        timed = i.timed;
        gone_late = i.gone_late;
      })
Step-Sound (hands task rest ws w v us now later live e e' before after run) i =
    let all = worker-WellTimed ws w us i e' in
    let funcs = subst (All IsFunc) e i.batched in
    let taken = Taken-of now later task w v all.1.0 funcs.0 run in
    record {
      prepended = i.prepended;
      room = i.room;
      woken = i.woken;
      batched = funcs.1;
      timed = with_worker ws w v us all taken.steady;
      gone_late = i.gone_late;
    }
Step-Sound {s} (ends ws w us t e e' h) i =
    let all = worker-WellTimed ws w us i e in
    record {
      prepended = i.prepended;
      room = i.room;
      woken = i.woken;
      batched = i.batched;
      timed =
          with_worker ws w (timer_sends s.clock w) us all (fire-WellTimed s.clock t w e' all.1.0);
      gone_late = i.gone_late;
    }
Step-Sound (receives ws w v us now later e e' h run) i =
    let all = worker-WellTimed ws w us i e in
    let drained = Drained-of now later w v all.1.0 e' run in
    record {
      prepended = i.prepended;
      room = i.room;
      woken = i.woken;
      batched = i.batched;
      timed = with_worker ws w v us all drained.steady;
      gone_late = i.gone_late;
    }
Step-Sound (ticks later h) i = record {
  prepended = i.prepended;
  room = i.room;
  woken = i.woken;
  batched = i.batched;
  timed = i.timed;
  gone_late = i.gone_late;
}
Step-Sound closes i = record {
  prepended = i.prepended;
  room = i.room;
  woken = i.woken;
  batched = i.batched;
  timed = i.timed;
  gone_late = i.gone_late;
}
Step-Sound (gives_up h) i = record {
  prepended = i.prepended;
  room = i.room;
  woken = i.woken;
  batched = tt;
  timed = i.timed;
  gone_late = i.gone_late;
}
Step-Sound (leaves ws w us d e) i =
    let all = worker-WellTimed ws w us i e in
    record {
      prepended = i.prepended;
      room = i.room;
      woken = i.woken;
      batched = i.batched;
      timed = All-append WellTimed ws us all.0 all.1.1;
      gone_late = (all.1.0.late, i.gone_late);
    }

new_workers-WellTimed : (clock n : ℕ) → All WellTimed (new_workers clock n)
new_workers-WellTimed clock zero = tt
new_workers-WellTimed clock (suc n) = (new_worker-WellTimed clock, new_workers-WellTimed clock n)

pub new_timed_sched-Sound : (clock parallel : ℕ) → Sound (new_timed_sched clock parallel)
unfolding new_timed_sched
new_timed_sched-Sound clock parallel = record {
  prepended = tt;
  room = omega arith;
  woken = inl refl;
  batched = tt;
  timed = new_workers-WellTimed clock parallel;
  gone_late = tt;
}

pub Reach-Sound : {s t : Sched} → Sound s → Reach s t → Sound t
Reach-Sound i here = i
Reach-Sound i (onward r st) = Step-Sound st (Reach-Sound i r)

-- In every state that a new scheduler reaches, each worker, one that has returned included, has
-- executed tasks only at readings of the clock later than their times.
pub none_early :
    (clock parallel : ℕ) {s : Sched}
    → Reach (new_timed_sched clock parallel) s
    → All HasRunLate s.workers × All (All IsLate) s.gone
none_early clock parallel r =
    let i = Reach-Sound (new_timed_sched-Sound clock parallel) r in
    (All-mono WellTimed HasRunLate (λ w h. h.late) _ i.timed, i.gone_late)
