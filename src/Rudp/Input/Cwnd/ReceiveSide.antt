-- ===== src/Rudp/Input/Cwnd/ReceiveSide.antt =====
-- The congestion window of `Input` and the receiving side.
use rudp_go.Common.{ℕ, refl, arith, IfDone, IfDone-bind, IfDone-if, done, ltb, ◌==◌, if◌then◌else◌}
use rudp_go.Rudp.{Rudp}
use rudp_go.Rudp.Receiving.{Untouched, same, Untouched-trans}
use rudp_go.Rudp.Input.Cwnd.{avoid_congestion, slow_start, clip_cwnd, may_grow, grow_cwnd}

avoid_congestion-Untouched : (r : Rudp) → IfDone (avoid_congestion r) (Untouched r)
unfolding avoid_congestion
avoid_congestion-Untouched r =
    IfDone-if ((if ltb r.incr r.mss then r.mss else r.incr) == 0) _ _ (Untouched r) (λ zero. tt)
      (λ positive. record { nxt = refl; wnd = refl; queue = refl; buf = refl })

clip_cwnd-Untouched : (r : Rudp) → Untouched r (clip_cwnd r)
unfolding clip_cwnd
clip_cwnd-Untouched r = ground arith

grown-Untouched :
    (r : Rudp)
    → IfDone
        (if ltb r.cwnd r.ssthresh then done (slow_start r) else avoid_congestion r)
        (Untouched r)
unfolding slow_start
grown-Untouched r =
    IfDone-if (ltb r.cwnd r.ssthresh) (done (slow_start r)) (avoid_congestion r) (Untouched r)
      (λ slow. record { nxt = refl; wnd = refl; queue = refl; buf = refl })
      (λ fast. avoid_congestion-Untouched r)

pub grow_cwnd-Untouched : (old_una : ℕ) (r : Rudp) → IfDone (grow_cwnd old_una r) (Untouched r)
unfolding grow_cwnd
grow_cwnd-Untouched old_una r =
    IfDone-if (may_grow old_una r) _ (done r) (Untouched r)
      (λ grows.
        IfDone-bind _ _ (Untouched r) _ (grown-Untouched r)
          λ r' e. Untouched-trans r r' _ e (clip_cwnd-Untouched r'))
      (λ still. same r)
