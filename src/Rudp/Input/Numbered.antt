-- ===== src/Rudp/Input/Numbered.antt =====
-- `Input` of rudp.go and the numbers in flight.
use rudp_go.Common.{
  ℕ, ◌+◌, ◌^◌, ◌<◌, ◌≤◌, ap, List, length, Returns, Returns-IfDone, Returns-mono, IfDone,
  IfDone-bind, ltb, ◌==◌, not, ◌&&◌, arith, Bool, Bool-cases, inl, inr, true, false, pos, ltb_ℤ,
}
use rudp_go.Wire.{overhead}
use rudp_go.Rudp.{Rudp, World, mtu_limit, time_diff, current_ms}
use rudp_go.Rudp.Numbers.{IsNumbered, Advances, Advances-trans, Unmoved, Unmoved-Advances}
use rudp_go.Rudp.Sized.{Sized}
use rudp_go.Rudp.Acks.Advance.{unchanged}
use rudp_go.Rudp.Delivery.SendSide.{itself, Unmoved-trans}
use rudp_go.Rudp.Rto.SendSide.{update_rto-Unmoved}
use rudp_go.Rudp.Flush.{flush, send_window}
use rudp_go.Rudp.Flush.Packet.Bounds.{Within}
use rudp_go.Rudp.Flush.Window.{Filled}
use rudp_go.Rudp.Flush.Filling.{flush-Filled, flush_acks-Unmoved, send_window-bound}
use rudp_go.Rudp.Input.Cwnd.{grow_cwnd}
use rudp_go.Rudp.Input.Cwnd.SendSide.{grow_cwnd-Unmoved}
use rudp_go.Rudp.Input.Loop.{Pass, Ended, returned, all_read, input_loop}
use rudp_go.Rudp.Input.Loop.Keeping.{HoldsAtEnd}
use rudp_go.Rudp.Input.Loop.Advance.{input_loop-Ahead}
use rudp_go.Rudp.Input.Loop.Bounds.{Safe}
use rudp_go.Rudp.Input.Safety.{input-Safe}
use rudp_go.Rudp.Input.{sample_rtt, final_flush, finish_input, flush_and_return, input}

-- No number that a flush can give out reaches 2 ^ 32, whatever the peer and the congestion allow.
abbrev pub FarFromWrap : Rudp → Type 0
FarFromWrap r = (r.snd_nxt + r.snd_wnd < 2 ^ 32) × (r.snd_nxt + length r.snd_queue < 2 ^ 32)

-- The start of the send side has not moved back, and there is no gap behind it.
abbrev pub IsOnward : Rudp → Rudp → Type 0
IsOnward r r' = IsNumbered r' × (r.snd_una ≤ r'.snd_una)

module _ (clock : ℕ → ℕ) where
  sample_rtt-Unmoved : (regular : Bool) (p : Pass) → Unmoved p.rudp (sample_rtt clock regular p).0
  unfolding sample_rtt
  sample_rtt-Unmoved regular p = elim (Bool-cases (p.flag && regular)) [
    | inr no_sample ↦ rw no_sample (itself p.rudp)
    | inl sample ↦
        elim (Bool-cases (ltb_ℤ (time_diff (current_ms clock p.world).0 p.latest) (pos 0))) [
          | inl negative ↦ rw (sample, negative) (itself p.rudp)
          | inr usable ↦ rw (sample, usable) (update_rto-Unmoved _ p.rudp)
        ]
  ]

  final_flush-IsOnward :
      (slide no_delay : Bool) (a r : Rudp) (w : World)
      → FarFromWrap a
      → Advances a r
      → IfDone (final_flush clock slide no_delay r w) (λ x. IsOnward a x.1)
  unfolding final_flush flush_and_return
  final_flush-IsOnward slide no_delay a r w far v = elim (Bool-cases slide) [
    | inl slid ↦ rw slid (
        IfDone-bind (flush clock false r w) _ (λ x. Filled r x.1 (send_window r)) _
          (flush-Filled clock r w v.numbered (
            omega (
              arith,
              far,
              v.numbered.complete,
              v.same_end,
              ap length v.same_queue,
              v.same_wnd,
              send_window-bound r,
            )))
          λ x f. (f.numbered, omega (arith, f.same_start, v.start)))
    | inr still ↦ elim (Bool-cases (no_delay && not (length r.ack_list == 0))) [
      | inl acks ↦
          rw (still, acks)
            (IfDone-bind (flush clock true r w) _ (λ x. Unmoved r x.1) _
              (flush_acks-Unmoved clock r w)
              λ x e.
                let on = Advances-trans a r x.1 v (Unmoved-Advances r x.1 e v.numbered) in
                (on.numbered, on.start))
      | inr none_due ↦ rw (still, none_due) (v.numbered, v.start)
    ]
  ]

  finish_input-IsOnward :
      (regular no_delay : Bool) (old_una : ℕ) (a : Rudp) (e : Ended)
      → FarFromWrap a
      → HoldsAtEnd (Advances a) e
      → IfDone (finish_input clock regular no_delay old_una e) (λ x. IsOnward a x.1)
  unfolding finish_input
  finish_input-IsOnward regular no_delay old_una a (returned code r w) far v = (v.numbered, v.start)
  finish_input-IsOnward regular no_delay old_una a (all_read p) far v =
      IfDone-bind (grow_cwnd old_una _) _ (Unmoved _) _ (grow_cwnd-Unmoved old_una _) λ r e.
        final_flush-IsOnward p.window_slide no_delay a r _ far (
          Advances-trans a p.rudp r v (
            Unmoved-Advances p.rudp r (Unmoved-trans p.rudp _ r (sample_rtt-Unmoved regular _) e)
              v.numbered))

  input-IsOnward :
      (packet : List ℕ) (regular ack_no_delay : Bool) (r : Rudp) (w : World)
      → FarFromWrap r
      → IsNumbered r
      → IfDone (input clock packet regular ack_no_delay r w) (λ x. IsOnward r x.1)
  unfolding input
  input-IsOnward packet regular ack_no_delay r w far v =
      elim (Bool-cases (ltb (length packet) overhead)) [
        | inl short ↦ rw short (v, omega arith)
        | inr whole ↦ rw whole (
            IfDone-bind (input_loop regular (length packet) packet _) _ (HoldsAtEnd (Advances r)) _
              (input_loop-Ahead r regular (length packet) packet _ (unchanged r v))
              (λ ended e. finish_input-IsOnward regular ack_no_delay r.snd_una r ended far e))
      ]

-- `Input` of a packet of at most 1500 bytes, whatever they are, on a RUDP with sound sizes whose
-- send buffer holds exactly the numbers from sndUna to sndNxt, returns, and so it is afterwards:
-- acknowledgements, also forged ones, leave no gap and move sndUna only up, the flush behind them
-- included. Condition: sndNxt with the send window or the send queue stays below 2 ^ 32, and no
-- earlier packet is longer than the MTU.
pub input_goes_on :
    (clock : ℕ → ℕ) (packet : List ℕ) (regular ack_no_delay : Bool) (r : Rudp) (w : World)
    → length packet ≤ mtu_limit
    → Sized r
    → Within r.mtu w
    → FarFromWrap r
    → IsNumbered r
    → Returns (input clock packet regular ack_no_delay r w) (λ x. IsOnward r x.1)
input_goes_on clock packet regular ack_no_delay r w small v h far n =
    Returns-mono (input clock packet regular ack_no_delay r w) _ _
      (Returns-IfDone (input clock packet regular ack_no_delay r w) (λ x. Safe r.mtu x.1 x.2) _
        (input-Safe clock packet regular ack_no_delay r w small v h)
        (input-IsOnward clock packet regular ack_no_delay r w far n))
      λ x both. both.1
