-- ===== src/TimedSched/Steps/Progress.antt =====
-- timesched.go, how the tasks that wait in the scheduler come to be executed.
use mathlib.Core.Path.{subst}
use rudp_go.Common.{
  ◌⊎◌, ℕ, ◌+◌, ◌<◌, ◌≡◌, refl, ap, ◌∙◌, inl, inr, Bool, true, false, List, [], ◌∷◌, Option, none,
  some, done, All, arith, Returns-done, length, count,
}
use rudp_go.TimedSched.Heap.{TimeFunc}
use rudp_go.TimedSched.Worker.{Worker, on_task}
use rudp_go.TimedSched.Worker.Timing.{IsFunc}
use rudp_go.TimedSched.Worker.Turns.{IsTaken, on_task_lem}
use rudp_go.TimedSched.Steps.{Sched, new_timed_sched, put_notify, notifies, prepares, hands, Reach}
use rudp_go.TimedSched.Steps.Invariant.{
  Sound, worker-WellTimed, Reach-Sound, new_timed_sched-Sound, prepared, prepare-done,
}
use rudp_go.TimedSched.Steps.Account.{
  put_tasks, executed_count, workers_count, kept_count, tasks_kept, gone_count, lost_tasks,
}
use rudp_go.TimedSched.Steps.Manned.{Reach-IsManned}
use rudp_go.TimedSched.Steps.Emptying.{IsIdle, workers_empty}
use rudp_go.TimedSched.Steps.Settling.{
  Settles, still, moves, Settles-trans, Settles-Sound, Settles-Reach, Settles-gone,
}

-- A run after which `prepend` has handed on its batch.
record Handed (s : Sched) : Type 0 where
  end : Sched
  way : Settles s end
  batched : end.batch ≡ []
  live : end.preparing ≡ true
  manned : 0 < length end.workers
  prepended : end.prepend_tasks ≡ s.prepend_tasks

taken_by :
    (now later : ℕ) (task : TimeFunc) (w : Worker) (r : Option Worker)
    → IsTaken now later task w r
    → (v : Worker) × (r ≡ some v)
taken_by now later task w none h = elim h [ ]
taken_by now later task w (some v) h = (v, refl)

batch-Handed :
    (batch : List TimeFunc) (w : Worker) (us : List Worker) {s : Sched}
    → Sound s
    → s.preparing ≡ true
    → s.workers ≡ w ∷ us
    → s.batch ≡ batch
    → Handed s
batch-Handed [] w us {s} i live e b = record {
  end = s;
  way = still;
  batched = b;
  live = live;
  manned = omega (arith, ap length e);
  prepended = refl;
}
batch-Handed (task ∷ rest) w us {s} i live e b =
    let steady = (worker-WellTimed [] w us i e).1.0 in
    let func = (subst (All IsFunc) b i.batched).0 in
    let (r, run, t) =
      Returns-done (on_task s.clock s.clock task w) _
        (on_task_lem s.clock s.clock task w steady func) in
    let (v, e') = taken_by s.clock s.clock task w r t in
    let way : Settles s (record s { batch = rest; workers = v ∷ us }) =
      moves still
        (hands task rest [] w v us s.clock s.clock live b e (omega arith) (omega arith)
          (run ∙ ap done e'))
        tt in
    let later = batch-Handed rest v us (Settles-Sound way i) live refl refl in
    record {
      end = later.end;
      way = Settles-trans way later.way;
      batched = later.batched;
      live = later.live;
      manned = later.manned;
      prepended = later.prepended;
    }

hand_on :
    (ws : List Worker) {s : Sched}
    → Sound s
    → s.preparing ≡ true
    → s.workers ≡ ws
    → 0 < length ws
    → Handed s
hand_on [] i live e m = absurd (omega arith)
hand_on (w ∷ us) {s} i live e m = batch-Handed s.batch w us i live e refl

-- A run after which no task waits for `prepend`.
record Passed (s : Sched) : Type 0 where
  end : Sched
  way : Settles s end
  prepended : end.prepend_tasks ≡ []
  batched : end.batch ≡ []

notified_passes :
    {s : Sched}
    → Sound s
    → s.preparing ≡ true
    → 0 < length s.workers
    → s.batch ≡ []
    → s.notified ≡ true
    → Passed s
notified_passes {s} i live m b n =
    let way : Settles s (prepared s) = moves still (prepares live n b (prepare-done s i.room)) tt in
    let handed = hand_on s.workers (Settles-Sound way i) live refl m in
    record {
      end = handed.end;
      way = Settles-trans way handed.way;
      prepended = handed.prepended;
      batched = handed.batched;
    }

woken_passes :
    {s : Sched} → Sound s → s.preparing ≡ true → 0 < length s.workers → s.batch ≡ [] → Passed s
unfolding put_notify
woken_passes {s} i live m b = elim i.woken [
  | inl h ↦ record { end = s; way = still; prepended = h; batched = b }
  | inr (inl n) ↦ notified_passes i live m b n
  | inr (inr p) ↦
      let way : Settles s (put_notify s) = moves still (notifies p) tt in
      let passed = notified_passes (Settles-Sound way i) live m b refl in
      record {
        end = passed.end;
        way = Settles-trans way passed.way;
        prepended = passed.prepended;
        batched = passed.batched;
      }
]

-- A run after which every task has been executed.
record Finished (s : Sched) : Type 0 where
  end : Sched
  way : Settles s end
  idle : All IsIdle end.workers
  prepended : end.prepend_tasks ≡ []
  batched : end.batch ≡ []

finishes : {s : Sched} → Sound s → s.preparing ≡ true → 0 < length s.workers → Finished s
finishes {s} i live m =
    let first = hand_on s.workers i live refl m in
    let j = Settles-Sound first.way i in
    let passed = woken_passes j first.live first.manned first.batched in
    let k = Settles-Sound passed.way j in
    let rest = workers_empty passed.end.workers [] k refl tt in
    record {
      end = rest.end;
      way = Settles-trans first.way (Settles-trans passed.way rest.way);
      idle = rest.idle;
      prepended = rest.prepended ∙ passed.prepended;
      batched = rest.batched ∙ passed.batched;
    }

unfoldable pub executed_by : (TimeFunc → Bool) → List Worker → ℕ
executed_by p [] = 0
executed_by p (w ∷ ws) = executed_count p w.executed + executed_by p ws

idle_count :
    (p : TimeFunc → Bool) (ws : List Worker) → All IsIdle ws → workers_count p ws ≡ executed_by p ws
unfolding executed_by
idle_count p [] h = refl
idle_count p (w ∷ ws) h = omega (arith, ap (count p) h.0, idle_count p ws h.1)

-- A run with no `Put` in it, after which each task put before has been executed, and once.
pub record RunToEnd (clock parallel : ℕ) {s : Sched} (r : Reach (new_timed_sched clock parallel) s)
    : Type 0 where
  pub end : Sched
  pub way : Reach s end
  pub quiet : put_tasks way ≡ []
  pub executed : (p : TimeFunc → Bool) → executed_by p end.workers ≡ count p (put_tasks r)

unless_closed :
    {s t : Sched} (r : Reach s t)
    → t.died ≡ false
    → (t.died ≡ true) ⊎ (lost_tasks r ≡ [])
    → lost_tasks r ≡ []
unless_closed r alive (inl d) = cc
unless_closed r alive (inr h) = h

-- From every state that a new scheduler with a worker reaches and in which it is not closed, there
-- is a run of `prepend`, the workers, the timers, the clock and the calls of Put under way, in which
-- nothing is put, after which the workers have executed each task put before, as often as it was put.
pub tasks_executed :
    (clock parallel : ℕ) {s : Sched} (r : Reach (new_timed_sched clock parallel) s)
    → 0 < parallel
    → s.died ≡ false
    → RunToEnd clock parallel r
unfolding executed_by
tasks_executed clock parallel {s} r pos alive = elim (Reach-IsManned clock parallel r) [
  | inl d ↦ cc
  | inr (live, size, g) ↦
      let i = Reach-Sound (new_timed_sched-Sound clock parallel) r in
      let f = finishes i live (omega arith) in
      let (way, quiet, none_lost) = Settles-Reach f.way in
      let kept_all = unless_closed r alive (tasks_kept clock parallel r (λ p. true)).1 in
      record {
        end = f.end;
        way = way;
        quiet = quiet;
        executed = λ p. omega (
          arith,
          kept_count p way i,
          ap (count p) quiet,
          (tasks_kept clock parallel r p).0,
          ap (count p) none_lost,
          ap (count p) kept_all,
          ap (count p) f.prepended,
          ap (count p) f.batched,
          idle_count p f.end.workers f.idle,
          ap (gone_count p) (Settles-gone i f.way ∙ g),
        );
      }
]
