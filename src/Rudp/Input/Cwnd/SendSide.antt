-- ===== src/Rudp/Input/Cwnd/SendSide.antt =====
-- The congestion window of `Input` and the send side.
use rudp_go.Common.{
  ℕ, refl, arith, IfDone, IfDone-bind, Bool-cases, inl, inr, ltb, ◌==◌, if◌then◌else◌,
}
use rudp_go.Rudp.{Rudp}
use rudp_go.Rudp.Numbers.{Unmoved}
use rudp_go.Rudp.Delivery.SendSide.{itself, Unmoved-trans}
use rudp_go.Rudp.Input.Cwnd.{avoid_congestion, slow_start, clip_cwnd, may_grow, grow_cwnd}

avoid_congestion-Unmoved : (r : Rudp) → IfDone (avoid_congestion r) (Unmoved r)
unfolding avoid_congestion
avoid_congestion-Unmoved r = elim (Bool-cases ((if ltb r.incr r.mss then r.mss else r.incr) == 0)) [
  | inl zero ↦ rw zero tt
  | inr positive ↦
      rw positive (record { una = refl; nxt = refl; queue = refl; buf = refl; wnd = refl })
]

clip_cwnd-Unmoved : (r : Rudp) → Unmoved r (clip_cwnd r)
unfolding clip_cwnd
clip_cwnd-Unmoved r = ground arith

slow_start-Unmoved : (r : Rudp) → Unmoved r (slow_start r)
unfolding slow_start
slow_start-Unmoved r = record { una = refl; nxt = refl; queue = refl; buf = refl; wnd = refl }

pub grow_cwnd-Unmoved : (old_una : ℕ) (r : Rudp) → IfDone (grow_cwnd old_una r) (Unmoved r)
unfolding grow_cwnd
grow_cwnd-Unmoved old_una r = elim (Bool-cases (may_grow old_una r)) [
  | inr still ↦ rw still (itself r)
  | inl grows ↦ rw grows (elim (Bool-cases (ltb r.cwnd r.ssthresh)) [
    | inl slow ↦
        rw slow (Unmoved-trans r _ _ (slow_start-Unmoved r) (clip_cwnd-Unmoved (slow_start r)))
    | inr fast ↦ rw fast (
        IfDone-bind (avoid_congestion r) _ (Unmoved r) _ (avoid_congestion-Unmoved r)
          λ r' e. Unmoved-trans r r' _ e (clip_cwnd-Unmoved r'))
  ])
]
