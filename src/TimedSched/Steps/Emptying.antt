-- ===== src/TimedSched/Steps/Emptying.antt =====
-- timesched.go, how the tasks of the workers come to be executed.
use mathlib.Core.Path.{subst}
use rudp_go.Common.{
  ℕ, ◌+◌, ◌-◌, ◌≡◌, ◌⊎◌, refl, sym, ◌∙◌, inl, inr, Bool, true, false, List, [], ◌∷◌, ◌++◌,
  append_assoc, append-nil, Option, none, some, All, All-append, arith, Returns-done,
}
use rudp_go.TimedSched.Heap.{TimeFunc}
use rudp_go.TimedSched.Worker.{Timer, Worker, on_timer}
use rudp_go.TimedSched.Worker.Timing.{IsReady}
use rudp_go.TimedSched.Worker.Due.{timer_for, on_timer_lem}
use rudp_go.TimedSched.Steps.{Sched, receives}
use rudp_go.TimedSched.Steps.Invariant.{Sound, worker-WellTimed}
use rudp_go.TimedSched.Steps.Settling.{
  Settles, still, moves, Settles-trans, Settles-Sound, Emptied, armed_empties, then_empties,
}

set_again :
    (now clock : ℕ) (tasks : List TimeFunc) (timer : Timer)
    → timer ≡ timer_for now clock tasks
    → (tasks ≡ []) ⊎ ((t : ℕ) × (timer ≡ record { armed = some t; channel = none }))
set_again now clock [] timer e = inl refl
set_again now clock (t ∷ ts) timer e = inr (clock + (t.ts - now), e)

-- The worker has a time to receive; its timer ends once more if that leaves tasks.
sent_empties :
    {s : Sched} (ws : List Worker) (w : Worker) (us : List Worker) (now : ℕ)
    → Sound s
    → s.workers ≡ ws ++ w ∷ us
    → w.timer ≡ record { armed = none; channel = some now }
    → Emptied ws us s
sent_empties {s} ws w us now i e e' =
    let steady = (worker-WellTimed ws w us i e).1.0 in
    let (v, run, d) =
      Returns-done (on_timer now s.clock w) _ (on_timer_lem now s.clock w steady e') in
    let way : Settles s (record s { workers = ws ++ v ∷ us }) =
      moves still (receives ws w v us now s.clock e e' (omega arith) run) tt in
    elim (set_again now s.clock v.tasks v.timer d.timer) [
      | inl h ↦ record {
        end = record s { workers = ws ++ v ∷ us };
        way = way;
        worker = v;
        workers = refl;
        idle = h;
        prepended = refl;
        batched = refl;
      }
      | inr h ↦
          then_empties ws us way refl refl
            (armed_empties ws v us h.0 (Settles-Sound way i) refl h.1)
    ]

-- What the timer of a worker is at.
timer_at :
    (b : Bool) (armed channel : Option ℕ) (tasks : List TimeFunc)
    → IsReady b armed channel tasks
    → (tasks ≡ [])
      ⊎ (((t : ℕ) × (armed ≡ some t) × (channel ≡ none))
          ⊎ ((t : ℕ) × (armed ≡ none) × (channel ≡ some t)))
timer_at true none none tasks h = inl h
timer_at false (some t) none tasks h = inr (inl (t, refl, refl))
timer_at false none (some t) tasks h = inr (inr (t, refl, refl))
timer_at true (some t) c tasks h = elim h [ ]
timer_at true none (some c) tasks h = elim h [ ]
timer_at false none none tasks h = elim h [ ]
timer_at false (some t) (some c) tasks h = elim h [ ]

worker_empties :
    {s : Sched} (ws : List Worker) (w : Worker) (us : List Worker)
    → Sound s
    → s.workers ≡ ws ++ w ∷ us
    → Emptied ws us s
worker_empties {s} ws w us i e =
    elim (timer_at w.all_done w.timer.armed w.timer.channel w.tasks
      (worker-WellTimed ws w us i e).1.0.ready) [
        | inl h ↦ record {
          end = s;
          way = still;
          worker = w;
          workers = e;
          idle = h;
          prepended = refl;
          batched = refl;
        }
        | inr (inl (t, a, c)) ↦
            armed_empties ws w us t i e (λ k. record { armed = a k; channel = c k })
        | inr (inr (t, a, c)) ↦
            sent_empties ws w us t i e (λ k. record { armed = a k; channel = c k })
      ]

abbrev pub IsIdle : Worker → Type 0
IsIdle w = w.tasks ≡ []

-- A run after which no worker has a task left.
pub record AllEmptied (s : Sched) : Type 0 where
  pub end : Sched
  pub way : Settles s end
  pub idle : All IsIdle end.workers
  pub prepended : end.prepend_tasks ≡ s.prepend_tasks
  pub batched : end.batch ≡ s.batch

pub workers_empty :
    (us ws : List Worker) {s : Sched}
    → Sound s
    → s.workers ≡ ws ++ us
    → All IsIdle ws
    → AllEmptied s
workers_empty [] ws {s} i e h = record {
  end = s;
  way = still;
  idle = subst (All IsIdle) (sym (e ∙ append-nil ws)) h;
  prepended = refl;
  batched = refl;
}
workers_empty (w ∷ us) ws {s} i e h =
    let m = worker_empties ws w us i e in
    let rest =
      workers_empty us (ws ++ m.worker ∷ []) (Settles-Sound m.way i)
        (m.workers ∙ sym (append_assoc ws (m.worker ∷ []) us))
        (All-append IsIdle ws (m.worker ∷ []) h (m.idle, tt)) in
    record {
      end = rest.end;
      way = Settles-trans m.way rest.way;
      idle = rest.idle;
      prepended = rest.prepended ∙ m.prepended;
      batched = rest.batched ∙ m.batched;
    }
