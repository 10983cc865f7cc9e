-- ===== src/Rudp/Input.antt =====
-- `Input` of rudp.go: the loop over the segments of a packet, the round-trip sample, the
-- congestion window, and the flush that follows.
pub mod Loop
pub mod Cwnd
pub mod Safety
pub mod Numbered
pub mod Ordered
use rudp_go.Common.{
  ℕ, zero, suc, ◌+◌, List, [], ◌∷◌, Bool, true, false, ◌||◌, ◌&&◌, not, length, ltb, leb, ◌==◌,
  if◌then◌else◌, Outcome, done, panic, ◌>>=◌, ℤ, pos, negsuc, ltb_ℤ,
}
use rudp_go.Snmp.{add_in_segs}
use rudp_go.Wire.{overhead}
use rudp_go.Rudp.{Rudp, World, AckItem, current_ms, time_diff}
use rudp_go.Rudp.Rto.{update_rto}
use rudp_go.Rudp.Flush.{flush}
use Loop.{Pass, Ended, returned, all_read, input_loop}
use Cwnd.{grow_cwnd}

-- A sample of the round trip, if an acknowledgement was read from a regular packet.
pub sample_rtt : (ℕ → ℕ) → Bool → Pass → Rudp × World
sample_rtt clock regular p =
    if p.flag && regular
    then (let (current, w) = current_ms clock p.world in
        let rtt = time_diff current p.latest in
        (if ltb_ℤ rtt (pos 0) then (p.rudp, w) else (update_rto rtt p.rudp, w)))
    else (p.rudp, p.world)

-- A flush, and the code 0.
flush_and_return : (ℕ → ℕ) → Bool → Rudp → World → Outcome (ℤ × Rudp × World)
flush_and_return clock ack_only r w = do
  (next, r', w') ← flush clock ack_only r w
  done (pos 0, r', w')

pub final_flush : (ℕ → ℕ) → Bool → Bool → Rudp → World → Outcome (ℤ × Rudp × World)
final_flush clock window_slide ack_no_delay r w =
    if window_slide
    then flush_and_return clock false r w
    else if ack_no_delay && not (length r.ack_list == 0)
    then flush_and_return clock true r w
    else done (pos 0, r, w)

-- What `Input` does behind its loop.
pub finish_input : (ℕ → ℕ) → Bool → Bool → ℕ → Ended → Outcome (ℤ × Rudp × World)
finish_input clock regular ack_no_delay old_una (returned code r w) = done (code, r, w)
finish_input clock regular ack_no_delay old_una (all_read p) = do
  let w : World = record p.world { snmp = add_in_segs p.in_segs p.world.snmp }
  let (r1, w1) = sample_rtt clock regular (record p { world = w })
  r2 ← grow_cwnd old_una r1
  final_flush clock p.window_slide ack_no_delay r2 w1

-- The result is Go's code: 0, or -1, -2 or -3 for a packet that is refused (in part).
pub input :
    (ℕ → ℕ) → List ℕ → (regular ack_no_delay : Bool) → Rudp → World → Outcome (ℤ × Rudp × World)
input clock packet regular ack_no_delay r w =
    if ltb (length packet) overhead then done (negsuc 0, r, w) else (do
      ended ← input_loop regular (length packet) packet (record {
        rudp = r;
        world = w;
        flag = false;
        latest = 0;
        in_segs = 0;
        window_slide = false;
      })
      finish_input clock regular ack_no_delay r.snd_una ended)
