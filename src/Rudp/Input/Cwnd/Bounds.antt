-- ===== src/Rudp/Input/Cwnd/Bounds.antt =====
-- The congestion window of `Input`: its division, and the sizes.
use rudp_go.Common.{
  ℕ, refl, done, Returns, Returns-bind, ltb, ◌==◌, if◌then◌else◌, arith, Bool-cases, inl, inr,
}
use rudp_go.Rudp.{Rudp}
use rudp_go.Rudp.Sized.{SizedAt, SameSizes-SizedAt}
use rudp_go.Rudp.Input.Cwnd.{slow_start, avoid_congestion, clip_cwnd, may_grow, grow_cwnd}

avoid_congestion-Sized :
    (mtu : ℕ) (r : Rudp) → SizedAt mtu r → Returns (avoid_congestion r) (SizedAt mtu)
unfolding avoid_congestion
avoid_congestion-Sized mtu r v =
    elim (Bool-cases ((if ltb r.incr r.mss then r.mss else r.incr) == 0)) [
      | inl empty ↦ absurd (ground arith)
      | inr some ↦ rw some (
          SameSizes-SizedAt mtu
            (record {
              mtu = refl;
              mss = refl;
              reserved = refl;
              buffer = refl;
              snd_queue = refl;
              snd_buf = refl;
            })
            v)
    ]

slow_start-Sized : (mtu : ℕ) (r : Rudp) → SizedAt mtu r → SizedAt mtu (slow_start r)
unfolding slow_start
slow_start-Sized mtu r v = ground arith

clip_cwnd-Sized : (mtu : ℕ) (r : Rudp) → SizedAt mtu r → SizedAt mtu (clip_cwnd r)
unfolding clip_cwnd
clip_cwnd-Sized mtu r v = ground arith

pub grow_cwnd-Sized :
    (mtu old_una : ℕ) (r : Rudp) → SizedAt mtu r → Returns (grow_cwnd old_una r) (SizedAt mtu)
unfolding grow_cwnd
grow_cwnd-Sized mtu old_una r v = elim (Bool-cases (may_grow old_una r)) [
  | inr no_growth ↦ rw no_growth v
  | inl grows ↦ rw grows (
      Returns-bind (if ltb r.cwnd r.ssthresh then done (slow_start r) else avoid_congestion r) _
        (SizedAt mtu) (SizedAt mtu)
        (elim (Bool-cases (ltb r.cwnd r.ssthresh)) [
          | inl slow ↦ rw slow (slow_start-Sized mtu r v)
          | inr avoids ↦ rw avoids (avoid_congestion-Sized mtu r v)
        ])
        (clip_cwnd-Sized mtu))
]
