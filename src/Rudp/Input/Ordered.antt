-- ===== src/Rudp/Input/Ordered.antt =====
-- `Input` of rudp.go and the receiving side.
use rudp_go.Common.{
  ℕ, ◌^◌, ◌<◌, ◌≤◌, refl, sym, List, [], length, append-nil, Returns, Returns-IfDone, Returns-mono,
  IfDone, IfDone-bind, IfDone-mono, IfDone-if, ltb, ◌==◌, not, ◌&&◌, Bool, pos, ltb_ℤ, done, negsuc,
  true, false, Bool-cases, inl, inr,
}
use rudp_go.Wire.{overhead}
use rudp_go.Rudp.{Rudp, World, mtu_limit, time_diff, current_ms}
use rudp_go.Rudp.Receiving.{Untouched, same}
use rudp_go.Rudp.Sized.{Sized}
use rudp_go.Rudp.Delivery.Order.{InOrder, IsSettled}
use rudp_go.Rudp.Delivery.Growth.{Grown, Untouched-Grown}
use rudp_go.Rudp.Rto.ReceiveSide.{update_rto-Untouched}
use rudp_go.Rudp.Flush.{flush}
use rudp_go.Rudp.Flush.Packet.Bounds.{Within}
use rudp_go.Rudp.Flush.ReceiveSide.{flush-Untouched}
use rudp_go.Rudp.Input.Cwnd.{grow_cwnd}
use rudp_go.Rudp.Input.Cwnd.ReceiveSide.{grow_cwnd-Untouched}
use rudp_go.Rudp.Input.Loop.{Pass, Ended, returned, all_read, input_loop}
use rudp_go.Rudp.Input.Loop.Keeping.{HoldsAtEnd}
use rudp_go.Rudp.Input.Loop.Growing.{input_loop-Grown}
use rudp_go.Rudp.Input.Loop.Bounds.{Safe}
use rudp_go.Rudp.Input.Safety.{input-Safe}
use rudp_go.Rudp.Input.{sample_rtt, final_flush, finish_input, flush_and_return, input}

module _ (clock : ℕ → ℕ) where
  sample_rtt-Untouched :
      (regular : Bool) (p : Pass) → Untouched p.rudp (sample_rtt clock regular p).0
  unfolding sample_rtt
  sample_rtt-Untouched regular p = elim (Bool-cases (p.flag && regular)) [
    | inr no_sample ↦ rw no_sample (same p.rudp)
    | inl sample ↦
        elim (Bool-cases (ltb_ℤ (time_diff (current_ms clock p.world).0 p.latest) (pos 0))) [
          | inl negative ↦ rw (sample, negative) (same p.rudp)
          | inr usable ↦ rw (sample, usable) (update_rto-Untouched _ p.rudp)
        ]
  ]

  flush_and_return-Untouched :
      (ack_only : Bool) (r : Rudp) (w : World)
      → IfDone (flush_and_return clock ack_only r w) (λ x. Untouched r x.1)
  unfolding flush_and_return
  flush_and_return-Untouched ack_only r w =
      IfDone-bind (flush clock ack_only r w) _ (λ x. Untouched r x.1) _
        (flush-Untouched clock ack_only r w) λ x e. e

  final_flush-Untouched :
      (slide no_delay : Bool) (r : Rudp) (w : World)
      → IfDone (final_flush clock slide no_delay r w) (λ x. Untouched r x.1)
  unfolding final_flush
  final_flush-Untouched slide no_delay r w =
      IfDone-if slide _ _ (λ x. Untouched r x.1) (λ slid. flush_and_return-Untouched false r w)
        (λ still.
          IfDone-if (no_delay && not (length r.ack_list == 0)) _ (done (pos 0, r, w))
            (λ x. Untouched r x.1) (λ acks. flush_and_return-Untouched true r w)
            (λ none_due. same r))

  finish_input-Grown :
      (regular no_delay : Bool) (old_una base : ℕ) (a : Rudp) (e : Ended)
      → HoldsAtEnd (Grown base a) e
      → IfDone (finish_input clock regular no_delay old_una e) (λ x. Grown base a x.1)
  unfolding finish_input
  finish_input-Grown regular no_delay old_una base a (returned code r w) v = v
  finish_input-Grown regular no_delay old_una base a (all_read p) v =
      IfDone-bind (grow_cwnd old_una _) _ (Untouched _) _ (grow_cwnd-Untouched old_una _) λ r e.
        IfDone-mono (final_flush clock p.window_slide no_delay r _) (λ x. Untouched r x.1) _
          (final_flush-Untouched p.window_slide no_delay r _)
          λ x f. Untouched-Grown base a r x.1 f (
            Untouched-Grown base a _ r e
              (Untouched-Grown base a p.rudp _ (sample_rtt-Untouched regular _) v))

  input-Grown :
      (packet : List ℕ) (regular ack_no_delay : Bool) (base : ℕ) (r : Rudp) (w : World)
      → r.rcv_wnd < 2 ^ 32
      → Grown base r r
      → IfDone (input clock packet regular ack_no_delay r w) (λ x. Grown base r x.1)
  unfolding input
  input-Grown packet regular ack_no_delay base r w wnd v =
      IfDone-if (ltb (length packet) overhead) (done (negsuc 0, r, w)) _ (λ x. Grown base r x.1)
        (λ short. v)
        (λ whole.
          IfDone-bind (input_loop regular (length packet) packet _) _ (HoldsAtEnd (Grown base r)) _
            (input_loop-Grown base r wnd regular (length packet) packet _ v)
            (λ ended e. finish_input-Grown regular ack_no_delay r.snd_una base r ended e))

-- `Input` of a packet of at most 1500 bytes, whatever they are, on a RUDP with sound sizes returns;
-- and if the receive queue held consecutive numbers up to rcvNxt, and the receive buffer later ones
-- in rising order with nothing due, so it is afterwards, the flush behind the packet included. The
-- queue has what it had, in its place, and more behind it; so the bytes for the caller stay in the
-- order of their numbers, with no gap and no repetition, whether the segments come out of order,
-- repeated, or with numbers that were never sent. The window's end may wrap. Condition: rcvNxt and
-- the receive window are below 2 ^ 32, and no earlier packet is longer than the MTU.
pub input_keeps_order :
    (clock : ℕ → ℕ) (packet : List ℕ) (regular ack_no_delay : Bool) (base : ℕ) (r : Rudp)
    (w : World)
    → length packet ≤ mtu_limit
    → Sized r
    → Within r.mtu w
    → r.rcv_nxt < 2 ^ 32
    → r.rcv_wnd < 2 ^ 32
    → InOrder base r
    → IsSettled r
    → Returns (input clock packet regular ack_no_delay r w) (λ x. Grown base r x.1)
input_keeps_order clock packet regular ack_no_delay base r w small v h nxt wnd o settled =
    Returns-mono (input clock packet regular ack_no_delay r w) _ _
      (Returns-IfDone (input clock packet regular ack_no_delay r w) (λ x. Safe r.mtu x.1 x.2) _
        (input-Safe clock packet regular ack_no_delay r w small v h)
        (input-Grown clock packet regular ack_no_delay base r w wnd (record {
          in_order = o;
          settled = settled;
          small = nxt;
          wnd = refl;
          more = [];
          queue = sym (append-nil r.rcv_queue);
        })))
      λ x both. both.1
