-- ===== src/Rudp/Input/Loop/Keeping.antt =====
-- The loop of `Input` keeps a property of the RUDP that each kind of segment keeps.
use rudp_go.Common.{
  ℕ, zero, suc, List, length, IfDone, IfDone-bind, IfDone-then, IfDone-if, ltb, ◌==◌, not, Outcome,
  Bool,
}
use rudp_go.Wire.{
  Segment, Header, overhead, decode_uint32, decode_fields, cmd_push, cmd_ack, cmd_wask,
}
use rudp_go.Rudp.{Rudp}
use rudp_go.Rudp.Input.Loop.{
  Pass, Ended, returned, all_read, Round, stop, next, is_command, pushed, accept_push, handle_push,
  handle_ack, handle_wask, take_header, dispatch, count_segment, read_segment, input_loop,
  handle_segment, go_on,
}

-- What each command must keep.
pub record Keeps (P : Rudp → Type 0) : Type 0 where
  pub push : (seg : Segment) (r : Rudp) → P r → IfDone (accept_push seg r) (λ x. P x.1)
  pub header :
      (regular : Bool) (h : Header) (p : Pass) → P p.rudp → P (take_header regular h p).rudp
  pub ack : (h : Header) (p : Pass) → P p.rudp → P (handle_ack h p).rudp
  pub wask : (p : Pass) → P p.rudp → P (handle_wask p).rudp

abbrev pub HoldsAtEnd : (Rudp → Type 0) → Ended → Type 0
HoldsAtEnd P (returned code r w) = P r
HoldsAtEnd P (all_read p) = P p.rudp

module _ (P : Rudp → Type 0) (k : Keeps P) where
  abbrev Holds : Pass → Type 0
  Holds p = P p.rudp

  abbrev HoldsNext : Round → Type 0
  HoldsNext (stop code) = Unit {0}
  HoldsNext (next rest p) = P p.rudp

  handle_push-Holds :
      (regular : Bool) (seg : Segment) (p : Pass)
      → P p.rudp
      → IfDone (handle_push regular seg p) Holds
  unfolding handle_push
  handle_push-Holds regular seg p v =
      IfDone-bind (accept_push seg p.rudp) _ (λ x. P x.1) _ (k.push seg p.rudp v) λ x v'. v'

  dispatch-Holds :
      (regular : Bool) (conv : ℕ) (h : Header) (body : List ℕ) (p : Pass)
      → P p.rudp
      → IfDone (dispatch regular conv h body p) Holds
  unfolding dispatch
  dispatch-Holds regular conv h body p v =
      IfDone-if (h.cmd == cmd_push) _ _ Holds
        (λ push. handle_push-Holds regular (pushed conv h body) p v)
        (λ other.
          IfDone-if (h.cmd == cmd_ack) _ _ Holds (λ ack. k.ack h p v)
            (λ neither. IfDone-if (h.cmd == cmd_wask) _ _ Holds (λ wask. k.wask p v) (λ wins. v)))

  handle_segment-Holds :
      (regular : Bool) (conv : ℕ) (h : Header) (body : List ℕ) (p : Pass)
      → P p.rudp
      → IfDone (handle_segment regular conv h body p) HoldsNext
  unfolding handle_segment count_segment
  handle_segment-Holds regular conv h body p v =
      IfDone-if (ltb (length body) h.length_field) _ _ HoldsNext (λ short. tt)
        (λ whole.
          IfDone-if (not (is_command h.cmd)) _ _ HoldsNext (λ unknown. tt)
            (λ known.
              IfDone-bind (dispatch regular conv h body (take_header regular h p)) _ Holds _
                (dispatch-Holds regular conv h body _ (k.header regular h p v)) λ p' v'. v'))

  read_segment-Holds :
      (regular : Bool) (packet : List ℕ) (p : Pass)
      → P p.rudp
      → IfDone (read_segment regular packet p) HoldsNext
  unfolding read_segment
  read_segment-Holds regular packet p v = IfDone-then (decode_uint32 packet) _ _ λ (conv, packet').
      IfDone-if (conv == p.rudp.conv) _ _ HoldsNext
        (λ own.
          IfDone-then (decode_fields packet') _ _
            λ (h, body). handle_segment-Holds regular conv h body p v)
        (λ foreign. tt)

  go_on-Holds :
      (p : Pass) (rounds : List ℕ → Pass → Outcome Ended) (round : Round)
      → P p.rudp
      → ((rest : List ℕ) (p' : Pass) → P p'.rudp → IfDone (rounds rest p') (HoldsAtEnd P))
      → HoldsNext round
      → IfDone (go_on p rounds round) (HoldsAtEnd P)
  unfolding go_on
  go_on-Holds p rounds (stop code) v on h = v
  go_on-Holds p rounds (next rest p') v on h = on rest p' h

  pub input_loop-Holds :
      (regular : Bool) (fuel : ℕ) (packet : List ℕ) (p : Pass)
      → P p.rudp
      → IfDone (input_loop regular fuel packet p) (HoldsAtEnd P)
  unfolding input_loop
  input_loop-Holds regular zero packet p v =
      IfDone-if (ltb (length packet) overhead) _ _ (HoldsAtEnd P) (λ ended. v) (λ more. tt)
  input_loop-Holds regular (suc fuel) packet p v =
      IfDone-if (ltb (length packet) overhead) _ _ (HoldsAtEnd P) (λ ended. v)
        (λ more.
          IfDone-bind (read_segment regular packet p) _ HoldsNext _
            (read_segment-Holds regular packet p v)
            λ round h.
              go_on-Holds p (input_loop regular fuel) round v
                (λ rest p' v'. input_loop-Holds regular fuel rest p' v') h)
