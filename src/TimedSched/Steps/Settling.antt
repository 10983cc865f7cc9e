-- ===== src/TimedSched/Steps/Settling.antt =====
-- timesched.go, runs of the scheduler in which no task is put and nothing is closed.
use mathlib.Core.Path.{subst}
use native.Mathlib.Bridge.{le_prop}
use mathlib.Core.List.Perm
use rudp_go.Common.{
  ℕ, suc, ◌+◌, ◌<◌, ◌≡◌, refl, sym, ◌∙◌, List, [], ◌∷◌, ◌++◌, none, some, All, Perm-All, arith,
  Returns, Returns-done,
}
use rudp_go.TimedSched.Heap.{TimeFunc}
use rudp_go.TimedSched.Worker.{Worker, on_timer}
use rudp_go.TimedSched.Worker.Due.{IsFrom, IsBefore, on_timer_lem}
use rudp_go.TimedSched.Steps.{
  Sched, put_notify, timer_sends, Step, puts, notifies, prepares, hands, ends, receives, ticks,
  closes, gives_up, leaves, Reach, here, onward,
}
use rudp_go.TimedSched.Steps.Invariant.{
  Sound, All-split, worker-WellTimed, Step-Sound, prepare-done,
}
use rudp_go.TimedSched.Steps.Account.{put_tasks, lost_tasks}

abbrev IsQuiet : {s t : Sched} → Step s t → Type 0
IsQuiet (puts f ddl room h) = ⊥
IsQuiet closes = ⊥
IsQuiet (gives_up h) = ⊥
IsQuiet (leaves ws w us d e) = ⊥
IsQuiet _ = Unit {0}

pub data Settles (s : Sched) : Sched → Type 0 where
  still : Settles s s
  moves : {t u : Sched} → Settles s t → (st : Step t u) → IsQuiet st → Settles s u

pub Settles-trans : {s t u : Sched} → Settles s t → Settles t u → Settles s u
Settles-trans a still = a
Settles-trans a (moves b st q) = moves (Settles-trans a b) st q

pub Settles-Sound : {s t : Sched} → Settles s t → Sound s → Sound t
Settles-Sound still i = i
Settles-Sound (moves a st q) i = Step-Sound st (Settles-Sound a i)

quiet-Step :
    {s t u : Sched} (r : Reach s t) (st : Step t u)
    → IsQuiet st
    → (put_tasks (onward r st) ≡ put_tasks r) × (lost_tasks (onward r st) ≡ lost_tasks r)
quiet-Step r (puts f ddl room h) q = elim q [ ]
quiet-Step r (notifies h) q = (refl, refl)
quiet-Step r (prepares live token idle e) q = (refl, refl)
quiet-Step r (hands task rest ws w v us now later live e e' before after run) q = (refl, refl)
quiet-Step r (ends ws w us t e e' h) q = (refl, refl)
quiet-Step r (receives ws w v us now later e e' h run) q = (refl, refl)
quiet-Step r (ticks later h) q = (refl, refl)
quiet-Step r closes q = elim q [ ]
quiet-Step r (gives_up h) q = elim q [ ]
quiet-Step r (leaves ws w us d e) q = elim q [ ]

quiet_gone : {t u : Sched} (st : Step t u) → Sound t → IsQuiet st → u.gone ≡ t.gone
unfolding put_notify
quiet_gone (puts f ddl room h) i q = elim q [ ]
quiet_gone (notifies h) i q = refl
quiet_gone {t} (prepares live token idle e) i q =
    subst (λ o. Returns o (λ u. u.gone ≡ t.gone)) (sym (prepare-done t i.room) ∙ e) refl
quiet_gone (hands task rest ws w v us now later live e e' before after run) i q = refl
quiet_gone (ends ws w us t e e' h) i q = refl
quiet_gone (receives ws w v us now later e e' h run) i q = refl
quiet_gone (ticks later h) i q = refl
quiet_gone closes i q = elim q [ ]
quiet_gone (gives_up h) i q = elim q [ ]
quiet_gone (leaves ws w us d e) i q = elim q [ ]

pub Settles-gone : {s t : Sched} → Sound s → Settles s t → t.gone ≡ s.gone
Settles-gone i still = refl
Settles-gone i (moves a st q) = quiet_gone st (Settles-Sound a i) q ∙ Settles-gone i a

pub Settles-Reach :
    {s t : Sched} → Settles s t → (r : Reach s t) × (put_tasks r ≡ []) × (lost_tasks r ≡ [])
Settles-Reach still = (here, refl, refl)
Settles-Reach (moves a st q) =
    let (before, put, lost) = Settles-Reach a in
    let same = quiet-Step before st q in (onward before st, same.0 ∙ put, same.1 ∙ lost)

abbrev latest : List TimeFunc → ℕ
latest [] = 0
latest (t ∷ ts) = t.ts + latest ts

latest-IsBefore : (now : ℕ) (ts : List TimeFunc) → latest ts < now → All (IsBefore now) ts
latest-IsBefore now [] h = tt
latest-IsBefore now (t ∷ ts) h = (omega arith, latest-IsBefore now ts (omega arith))

none_due : (now : ℕ) (ts : List TimeFunc) → All (IsBefore now) ts → All (IsFrom now) ts → ts ≡ []
none_due now [] h k = refl
none_due now (t ∷ ts) h k = absurd (omega (arith, h.0, k.0))

IsBefore-prop : (now : ℕ) (t : TimeFunc) → IsProp (IsBefore now t)
IsBefore-prop now t = le_prop

-- A run after which the worker at this place has no task left.
pub record Emptied (ws us : List Worker) (s : Sched) : Type 0 where
  pub end : Sched
  pub way : Settles s end
  pub worker : Worker
  pub workers : end.workers ≡ ws ++ worker ∷ us
  pub idle : worker.tasks ≡ []
  pub prepended : end.prepend_tasks ≡ s.prepend_tasks
  pub batched : end.batch ≡ s.batch

-- Time passes until every task of the worker is due, and its timer ends.
pub armed_empties :
    {s : Sched} (ws : List Worker) (w : Worker) (us : List Worker) (t : ℕ)
    → Sound s
    → s.workers ≡ ws ++ w ∷ us
    → w.timer ≡ record { armed = some t; channel = none }
    → Emptied ws us s
armed_empties {s} ws w us t i e e' =
    let now = suc ((s.clock + t) + latest w.tasks) in
    let tick : Settles s (record s { clock = now }) = moves still (ticks now (omega arith)) tt in
    let ended = moves tick (ends ws w us t e e' (omega arith)) tt in
    let steady = (worker-WellTimed ws (timer_sends now w) us (Settles-Sound ended i) refl).1.0 in
    let (v, run, d) =
      Returns-done (on_timer now now (timer_sends now w)) _
        (on_timer_lem now now (timer_sends now w) steady refl) in
    let due =
      Perm-All (IsBefore now) (IsBefore-prop now) (Perm.symm d.same)
        (latest-IsBefore now w.tasks (omega arith)) in
    record {
      end = _;
      way =
          moves ended (receives ws (timer_sends now w) v us now now refl refl (omega arith) run) tt;
      worker = v;
      workers = refl;
      idle = none_due now v.tasks (All-split (IsBefore now) d.run v.tasks due).1 d.waiting;
      prepended = refl;
      batched = refl;
    }

pub then_empties :
    {s t : Sched} (ws us : List Worker)
    → Settles s t
    → t.prepend_tasks ≡ s.prepend_tasks
    → t.batch ≡ s.batch
    → Emptied ws us t
    → Emptied ws us s
then_empties ws us a e e' m = record {
  end = m.end;
  way = Settles-trans a m.way;
  worker = m.worker;
  workers = m.workers;
  idle = m.idle;
  prepended = m.prepended ∙ e;
  batched = m.batched ∙ e';
}
