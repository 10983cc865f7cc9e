-- ===== src/TimedSched/Steps/Manned.antt =====
-- timesched.go, the goroutines of a scheduler that is not closed.
use mathlib.Core.Path.{subst}
use rudp_go.Common.{
  ℕ, zero, suc, ◌≡◌, ◌⊎◌, refl, sym, ap, ◌∙◌, inl, inr, true, List, [], ◌∷◌, ◌++◌, arith, Returns,
  length, length-append,
}
use rudp_go.TimedSched.Worker.{Worker}
use rudp_go.TimedSched.Steps.{
  Sched, new_workers, new_timed_sched, put_task, put_notify, close_sched, timer_sends, Step, puts,
  notifies, prepares, hands, ends, receives, ticks, closes, gives_up, leaves, Reach, here, onward,
}
use rudp_go.TimedSched.Steps.Invariant.{Sound, Reach-Sound, new_timed_sched-Sound, prepare-done}

-- Until the scheduler is closed, `prepend` and all the workers are there.
abbrev pub IsManned : ℕ → Sched → Type 0
IsManned n s = (s.died ≡ true) ⊎ ((s.preparing ≡ true) × (length s.workers ≡ n) × (s.gone ≡ []))

same_length :
    (ws : List Worker) (w v : Worker) (us : List Worker)
    → length (ws ++ v ∷ us) ≡ length (ws ++ w ∷ us)
same_length ws w v us = omega (arith, length-append ws (w ∷ us), length-append ws (v ∷ us))

moved :
    (n : ℕ) (s : Sched) (ws : List Worker) (w v : Worker) (us : List Worker)
    → s.workers ≡ ws ++ w ∷ us
    → IsManned n s
    → (s.died ≡ true) ⊎ ((s.preparing ≡ true) × (length (ws ++ v ∷ us) ≡ n) × (s.gone ≡ []))
moved n s ws w v us e (inl d) = inl d
moved n s ws w v us e (inr (p, l, g)) = inr (p, same_length ws w v us ∙ sym (ap length e) ∙ l, g)

Step-IsManned : (n : ℕ) {s t : Sched} → Step s t → Sound s → IsManned n s → IsManned n t
unfolding put_task put_notify close_sched
Step-IsManned n (puts f ddl room h) i m = m
Step-IsManned n (notifies h) i m = m
Step-IsManned n {s} (prepares live token idle e) i m =
    subst (λ o. Returns o (IsManned n)) (sym (prepare-done s i.room) ∙ e) m
Step-IsManned n {s} (hands task rest ws w v us now later live e e' before after run) i m =
    moved n s ws w v us e' m
Step-IsManned n {s} (ends ws w us t e e' h) i m = moved n s ws w (timer_sends s.clock w) us e m
Step-IsManned n {s} (receives ws w v us now later e e' h run) i m = moved n s ws w v us e m
Step-IsManned n (ticks later h) i m = m
Step-IsManned n closes i m = inl refl
Step-IsManned n (gives_up h) i m = inl h
Step-IsManned n (leaves ws w us d e) i m = inl d

length-new_workers : (clock n : ℕ) → length (new_workers clock n) ≡ n
length-new_workers clock zero = refl
length-new_workers clock (suc n) = ap suc (length-new_workers clock n)

pub Reach-IsManned : (clock n : ℕ) {s : Sched} → Reach (new_timed_sched clock n) s → IsManned n s
unfolding new_timed_sched
Reach-IsManned clock n here = inr (refl, length-new_workers clock n, refl)
Reach-IsManned clock n (onward r st) =
    Step-IsManned n st (Reach-Sound (new_timed_sched-Sound clock n) r) (Reach-IsManned clock n r)
