-- ===== src/Rudp/Input/Safety.antt =====
-- `Input` of rudp.go on any packet: its end, panics and packet sizes.
use rudp_go.Common.{
  ℕ, ◌≤◌, refl, ◌∙◌, List, length, Returns, Returns-bind, ltb, ◌==◌, not, ◌&&◌, arith, Bool,
  Bool-cases, inl, inr, true, false, pos, ltb_ℤ,
}
use rudp_go.Wire.{overhead}
use rudp_go.Rudp.{Rudp, World, mtu_limit, time_diff, current_ms}
use rudp_go.Rudp.Sized.{Sized, SizedAt}
use rudp_go.Rudp.Rto.Bounds.{update_rto-Sized}
use rudp_go.Rudp.Flush.{flush}
use rudp_go.Rudp.Flush.Packet.Bounds.{Within}
use rudp_go.Rudp.Flush.Safety.{Flushed, flush-Flushed}
use rudp_go.Rudp.Input.Cwnd.Bounds.{grow_cwnd-Sized}
use rudp_go.Rudp.Input.Loop.{Pass, Ended, returned, all_read, input_loop}
use rudp_go.Rudp.Input.Loop.Bounds.{Safe, SafePass, SafeEnd, input_loop-Safe}
use rudp_go.Rudp.Input.{sample_rtt, final_flush, finish_input, flush_and_return, input}
use rudp_go.Rudp.Input.Cwnd.{grow_cwnd}
use rudp_go.Snmp.{add_in_segs}
use mathlib.Core.Path.{subst, sym}

module _ (clock : ℕ → ℕ) (mtu : ℕ) where
  sample_rtt-Safe :
      (regular : Bool) (p : Pass)
      → SafePass mtu p
      → let (r, w) = sample_rtt clock regular p in Safe mtu r w
  unfolding sample_rtt
  sample_rtt-Safe regular p v = elim (Bool-cases (p.flag && regular)) [
    | inr no_sample ↦ rw no_sample v
    | inl sample ↦
        elim (Bool-cases (ltb_ℤ (time_diff (current_ms clock p.world).0 p.latest) (pos 0))) [
          | inl negative ↦ rw (sample, negative) v
          | inr usable ↦ rw (sample, usable) (update_rto-Sized mtu _ p.rudp v.0, v.1)
        ]
  ]

  flush-Safe :
      (ack_only : Bool) (r : Rudp) (w : World)
      → Safe mtu r w
      → Returns (flush_and_return clock ack_only r w) (λ x. Safe mtu x.1 x.2)
  unfolding flush_and_return
  flush-Safe ack_only r w v =
      Returns-bind (flush clock ack_only r w) _ (Flushed r.mtu) _
        (flush-Flushed clock ack_only r w v.0.0 (subst (λ m. Within m w) (sym v.0.1) v.1))
        λ x f. ((f.0, f.1 ∙ v.0.1), subst (λ m. Within m x.2) v.0.1 f.2)

  final_flush-Safe :
      (slide no_delay : Bool) (r : Rudp) (w : World)
      → Safe mtu r w
      → Returns (final_flush clock slide no_delay r w) (λ x. Safe mtu x.1 x.2)
  unfolding final_flush
  final_flush-Safe slide no_delay r w v = elim (Bool-cases slide) [
    | inl slid ↦ rw slid (flush-Safe false r w v)
    | inr still ↦ elim (Bool-cases (no_delay && not (length r.ack_list == 0))) [
      | inl acks ↦ rw (still, acks) (flush-Safe true r w v)
      | inr none_due ↦ rw (still, none_due) v
    ]
  ]

  finish_input-Safe :
      (regular no_delay : Bool) (old_una : ℕ) (e : Ended)
      → SafeEnd mtu e
      → Returns (finish_input clock regular no_delay old_una e) (λ x. Safe mtu x.1 x.2)
  unfolding finish_input
  finish_input-Safe regular no_delay old_una (returned code r w) v = v
  finish_input-Safe regular no_delay old_una (all_read p) v =
      let sampled =
        sample_rtt-Safe regular
          (record p { world = record p.world { snmp = add_in_segs p.in_segs p.world.snmp } }) v in
      Returns-bind (grow_cwnd old_una _) _ (SizedAt mtu) _ (grow_cwnd-Sized mtu old_una _ sampled.0)
        λ r r_sized. final_flush-Safe p.window_slide no_delay r _ (r_sized, sampled.1)

-- `Input` on a RUDP with sound sizes and a packet of at most 1500 bytes, a socket's read buffer,
-- returns: its loop ends, and neither the decoder nor the store nor the flush panics, whatever the
-- bytes are. It keeps the sizes and the MTU, and what it sends stays within the MTU, if what was
-- sent before did.
pub input-Safe :
    (clock : ℕ → ℕ) (packet : List ℕ) (regular ack_no_delay : Bool) (r : Rudp) (w : World)
    → length packet ≤ mtu_limit
    → Sized r
    → Within r.mtu w
    → Returns (input clock packet regular ack_no_delay r w) (λ x. Safe r.mtu x.1 x.2)
unfolding input
input-Safe clock packet regular ack_no_delay r w small v h =
    elim (Bool-cases (ltb (length packet) overhead)) [
      | inl short ↦ rw short ((v, refl), h)
      | inr whole ↦ rw whole (
          Returns-bind (input_loop regular (length packet) packet _) _ (SafeEnd r.mtu) _
            (input_loop-Safe r.mtu regular (length packet) packet _ (omega arith) (omega arith)
              ((v, refl), h))
            (finish_input-Safe clock r.mtu regular ack_no_delay r.snd_una))
    ]
