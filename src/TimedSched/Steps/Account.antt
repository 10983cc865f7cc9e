-- ===== src/TimedSched/Steps/Account.antt =====
-- timesched.go, the tasks put over a run of the scheduler, and where they are.
use mathlib.Core.Path.{subst}
use rudp_go.Common.{
  ℕ, zero, suc, ◌+◌, ◌≡◌, refl, sym, ap, ◌∙◌, inl, inr, ◌⊎◌, true, Bool, List, [], ◌∷◌, ◌++◌, some,
  All, arith, Returns, count, count-append, count-perm,
}
use rudp_go.TimedSched.Heap.{TimeFunc}
use rudp_go.TimedSched.Worker.{Worker, Execution, new_worker}
use rudp_go.TimedSched.Worker.Timing.{IsFunc}
use rudp_go.TimedSched.Worker.Turns.{Taken}
use rudp_go.TimedSched.Worker.Due.{Drained, executions}
use rudp_go.TimedSched.Steps.{
  Sched, new_workers, new_timed_sched, put_task, put_notify, close_sched, timer_sends, puts,
  notifies, prepares, hands, ends, receives, ticks, closes, gives_up, leaves, Reach, here, onward,
}
use rudp_go.TimedSched.Steps.Invariant.{
  Sound, worker-WellTimed, Taken-of, Drained-of, prepare-done, Reach-Sound, new_timed_sched-Sound,
}

-- The tasks that the calls of `Put` have added on the way.
abbrev pub put_tasks : {s t : Sched} → Reach s t → List TimeFunc
put_tasks here = []
put_tasks (onward r (puts f ddl room h)) = put_tasks r ++ record { execute = some f; ts = ddl } ∷ []
put_tasks (onward r (notifies h)) = put_tasks r
put_tasks (onward r (prepares live token idle e)) = put_tasks r
put_tasks (onward r (hands task rest ws w v us now later live e e' before after run)) = put_tasks r
put_tasks (onward r (ends ws w us t e e' h)) = put_tasks r
put_tasks (onward r (receives ws w v us now later e e' h run)) = put_tasks r
put_tasks (onward r (ticks later h)) = put_tasks r
put_tasks (onward r closes) = put_tasks r
put_tasks (onward r (gives_up h)) = put_tasks r
put_tasks (onward r (leaves ws w us d e)) = put_tasks r

-- The tasks in the batch that `prepend` drops when it returns, and those in the heaps of workers
-- that return.
abbrev pub lost_tasks : {s t : Sched} → Reach s t → List TimeFunc
lost_tasks here = []
lost_tasks (onward r (puts f ddl room h)) = lost_tasks r
lost_tasks (onward r (notifies h)) = lost_tasks r
lost_tasks (onward r (prepares live token idle e)) = lost_tasks r
lost_tasks (onward r (hands task rest ws w v us now later live e e' before after run)) =
    lost_tasks r
lost_tasks (onward r (ends ws w us t e e' h)) = lost_tasks r
lost_tasks (onward r (receives ws w v us now later e e' h run)) = lost_tasks r
lost_tasks (onward r (ticks later h)) = lost_tasks r
lost_tasks (onward r closes) = lost_tasks r
lost_tasks (onward {t} r (gives_up h)) = lost_tasks r ++ t.batch
lost_tasks (onward r (leaves ws w us d e)) = lost_tasks r ++ w.tasks

module _ (p : TimeFunc → Bool) where
  abbrev pub executed_count : List Execution → ℕ
  executed_count es = count (λ e. p e.task) es

  abbrev pub worker_count : Worker → ℕ
  worker_count w = count p w.tasks + executed_count w.executed

  abbrev pub workers_count : List Worker → ℕ
  workers_count [] = 0
  workers_count (w ∷ ws) = worker_count w + workers_count ws

  abbrev pub gone_count : List (List Execution) → ℕ
  gone_count [] = 0
  gone_count (es ∷ gone) = executed_count es + gone_count gone

  -- How many of the tasks that are waiting, on the way, with a worker or executed pass the test.
  abbrev pub held_count : Sched → ℕ
  held_count s =
      (count p s.prepend_tasks + count p s.batch) + (workers_count s.workers + gone_count s.gone)

  workers_count-append :
      (ws us : List Worker) → workers_count (ws ++ us) ≡ workers_count ws + workers_count us
  workers_count-append [] us = omega arith
  workers_count-append (w ∷ ws) us = omega (arith, workers_count-append ws us)

  replaced :
      (ws : List Worker) (w v : Worker) (us : List Worker)
      → workers_count (ws ++ v ∷ us) + worker_count w
        ≡ workers_count (ws ++ w ∷ us) + worker_count v
  replaced ws w v us =
      omega (arith, workers_count-append ws (w ∷ us), workers_count-append ws (v ∷ us))

  executed_count-executions :
      (now : ℕ) (ts : List TimeFunc) → executed_count (executions now ts) ≡ count p ts
  executed_count-executions now [] = refl
  executed_count-executions now (t ∷ ts) = omega (arith, executed_count-executions now ts)

  Taken-count :
      (now later : ℕ) (task : TimeFunc) (w v : Worker)
      → Taken now later task w v
      → worker_count v ≡ count p (task ∷ []) + worker_count w
  Taken-count now later task w v t = elim t.either [
    | inl h ↦ omega (
      arith,
      ap worker_count h.1,
      count-append (λ e. p e.task) w.executed (record { task = task; at_time = now } ∷ []),
    )
    | inr h ↦ omega (arith, count-perm p h.1, ap executed_count h.2)
  ]

  Drained-count :
      (now later : ℕ) (w v : Worker)
      → Drained 0 now later w.tasks w.executed v
      → worker_count v ≡ worker_count w
  Drained-count now later w v d = omega (
    arith,
    ap executed_count d.executed,
    count-append (λ e. p e.task) w.executed (executions now d.run),
    executed_count-executions now d.run,
    count-perm p d.same,
    count-append p d.run v.tasks,
  )

  new_workers_count : (clock n : ℕ) → workers_count (new_workers clock n) ≡ 0
  unfolding new_worker
  new_workers_count clock zero = refl
  new_workers_count clock (suc n) = omega (arith, new_workers_count clock n)

  pub kept_count :
      {s t : Sched} (r : Reach s t)
      → Sound s
      → held_count t + count p (lost_tasks r) ≡ held_count s + count p (put_tasks r)
  unfolding put_task put_notify close_sched
  kept_count here i = omega arith
  kept_count {s} (onward {t} r (puts f ddl room h)) i =
      let new : List TimeFunc = record { execute = some f; ts = ddl } ∷ [] in
      omega (
        arith,
        kept_count r i,
        count-append p t.prepend_tasks new,
        count-append p (put_tasks r) new,
      )
  kept_count (onward r (notifies h)) i = kept_count r i
  kept_count {s} (onward {t} r (prepares live token idle e)) i =
      let before = kept_count r i in
      let none_left : count p t.batch ≡ 0 = ap (count p) idle in
      subst
        (λ o.
          Returns o
            (λ u. held_count u + count p (lost_tasks r) ≡ held_count s + count p (put_tasks r)))
        (sym (prepare-done t (Reach-Sound i r).room) ∙ e) (omega (arith, before, none_left))
  kept_count (onward {t} r (hands task rest ws w v us now later live e e' before after run)) i =
      let sound = Reach-Sound i r in
      let all = worker-WellTimed ws w us sound e' in
      let funcs = subst (All IsFunc) e sound.batched in
      omega (
        arith,
        kept_count r i,
        ap (count p) e,
        ap workers_count e',
        replaced ws w v us,
        Taken-count now later task w v (Taken-of now later task w v all.1.0 funcs.0 run),
      )
  kept_count (onward {t} r (ends ws w us at e e' h)) i =
      omega (arith, kept_count r i, ap workers_count e, replaced ws w (timer_sends t.clock w) us)
  kept_count (onward r (receives ws w v us now later e e' h run)) i =
      let all = worker-WellTimed ws w us (Reach-Sound i r) e in
      omega (
        arith,
        kept_count r i,
        ap workers_count e,
        replaced ws w v us,
        Drained-count now later w v (Drained-of now later w v all.1.0 e' run),
      )
  kept_count (onward r (ticks later h)) i = kept_count r i
  kept_count (onward r closes) i = kept_count r i
  kept_count (onward {t} r (gives_up h)) i =
      omega (arith, kept_count r i, count-append p (lost_tasks r) t.batch)
  kept_count (onward r (leaves ws w us d e)) i = omega (
    arith,
    kept_count r i,
    ap workers_count e,
    workers_count-append ws (w ∷ us),
    workers_count-append ws us,
    count-append p (lost_tasks r) w.tasks,
  )

-- Only the end of the scheduler loses tasks.
Reach-lost : {s t : Sched} (r : Reach s t) → Sound s → (t.died ≡ true) ⊎ (lost_tasks r ≡ [])
unfolding put_task put_notify close_sched
Reach-lost here i = inr refl
Reach-lost (onward r (puts f ddl room h)) i = Reach-lost r i
Reach-lost (onward r (notifies h)) i = Reach-lost r i
Reach-lost (onward {t} r (prepares live token idle e)) i =
    subst (λ o. Returns o (λ u. (u.died ≡ true) ⊎ (lost_tasks r ≡ [])))
      (sym (prepare-done t (Reach-Sound i r).room) ∙ e) (Reach-lost r i)
Reach-lost (onward r (hands task rest ws w v us now later live e e' before after run)) i =
    Reach-lost r i
Reach-lost (onward r (ends ws w us t e e' h)) i = Reach-lost r i
Reach-lost (onward r (receives ws w v us now later e e' h run)) i = Reach-lost r i
Reach-lost (onward r (ticks later h)) i = Reach-lost r i
Reach-lost (onward r closes) i = inl refl
Reach-lost (onward r (gives_up h)) i = inl h
Reach-lost (onward r (leaves ws w us d e)) i = inl d

-- In every state that a new scheduler reaches, by whatever steps of the callers, of `prepend`, of
-- the workers and of their timers: of the tasks that pass any test, as many have been put as are
-- waiting for `prepend`, in its batch, in the heaps of workers that run, executed, and lost with
-- goroutines that returned, together; so none is executed twice. And unless the scheduler is closed,
-- none is lost.
pub tasks_kept :
    (clock parallel : ℕ) {t : Sched} (r : Reach (new_timed_sched clock parallel) t)
    (p : TimeFunc → Bool)
    → (held_count p t + count p (lost_tasks r) ≡ count p (put_tasks r))
      × ((t.died ≡ true) ⊎ (lost_tasks r ≡ []))
unfolding new_timed_sched
tasks_kept clock parallel r p = (
  omega (
    arith,
    kept_count p r (new_timed_sched-Sound clock parallel),
    new_workers_count p clock parallel,
  ),
  Reach-lost r (new_timed_sched-Sound clock parallel),
)
