-- ===== src/Rudp/Input/Cwnd.antt =====
-- The congestion window of `Input`: slow start and congestion avoidance.
pub mod Bounds
pub mod SendSide
pub mod ReceiveSide
use rudp_go.Common.{
  ℕ, ◌+◌, ◌*◌, ◌/◌, ◌%◌, Bool, ◌&&◌, ltb, leb, ◌==◌, if◌then◌else◌, add32, sub32, mul32, Outcome,
  done, panic, ◌>>=◌,
}
use rudp_go.Rudp.{Rudp}

-- The number of segments that `incr` bytes fill.
pub full_segments : ℕ → ℕ → ℕ
full_segments incr mss =
    if ltb 0 mss then sub32 (add32 incr mss) 1 / mss else sub32 (add32 incr mss) 1

-- `(mss*mss)/incr` panics at incr = 0.
pub avoid_congestion : Rudp → Outcome Rudp
unfolding full_segments
avoid_congestion r =
    let incr = if ltb r.incr r.mss then r.mss else r.incr in
    let incr' = add32 incr (add32 (mul32 r.mss r.mss / incr) (r.mss / 16)) in
    if incr == 0
    then panic
    else done (record r {
      incr = incr';
      cwnd =
          (if leb (mul32 (add32 r.cwnd 1) r.mss) incr' then full_segments incr' r.mss else r.cwnd);
    })

pub slow_start : Rudp → Rudp
slow_start r = record r { cwnd = add32 r.cwnd 1; incr = add32 r.incr r.mss }

pub clip_cwnd : Rudp → Rudp
clip_cwnd r =
    if ltb r.rmt_wnd r.cwnd then record r { cwnd = r.rmt_wnd; incr = mul32 r.rmt_wnd r.mss } else r

-- Control is on, the window's start has moved, and the peer's window is wider.
abbrev pub may_grow : ℕ → Rudp → Bool
may_grow old_una r = r.no_cwnd == 0 && ltb old_una r.snd_una && ltb r.cwnd r.rmt_wnd

pub grow_cwnd : ℕ → Rudp → Outcome Rudp
grow_cwnd old_una r =
    if may_grow old_una r
    then ((if ltb r.cwnd r.ssthresh then done (slow_start r) else avoid_congestion r) >>= λ r'.
        done (clip_cwnd r'))
    else done r
