-- ===== src/Rudp/Input/Loop/Growing.antt =====
-- The loop of `Input` and the receiving side.
use rudp_go.Common.{
  ℕ, ◌^◌, ◌<◌, refl, List, IfDone, IfDone-if, ltb, if◌then◌else◌, Bool, true, false, add32, done,
}
use rudp_go.Wire.{Segment, Header}
use rudp_go.Rudp.{Rudp}
use rudp_go.Rudp.Receiving.{Untouched, Untouched-trans, same}
use rudp_go.Rudp.Acks.{parse_ack, push_ack}
use rudp_go.Rudp.Acks.ReceiveSide.{
  parse_una-Untouched, parse_ack-Untouched, parse_fast_ack-Untouched, push_ack-Untouched,
}
use rudp_go.Rudp.Delivery.Growth.{Grown, Untouched-Grown, parse_data-Grown}
use rudp_go.Rudp.Input.Loop.Keeping.{HoldsAtEnd, input_loop-Holds}
use rudp_go.Rudp.Input.Loop.{Pass, accept_push, handle_ack, handle_wask, take_header, input_loop}

take_header-Untouched :
    (regular : Bool) (h : Header) (p : Pass) → Untouched p.rudp (take_header regular h p).rudp
unfolding take_header
take_header-Untouched regular h p =
    Untouched-trans p.rudp (start regular) _ (started regular)
      (parse_una-Untouched h.una (start regular))
  where
    start : Bool → Rudp
    start b = if b then record p.rudp { rmt_wnd = h.wnd } else p.rudp

    started : (b : Bool) → Untouched p.rudp (start b)
    started true = record { nxt = refl; wnd = refl; queue = refl; buf = refl }
    started false = same p.rudp

handle_ack-Untouched : (h : Header) (p : Pass) → Untouched p.rudp (handle_ack h p).rudp
unfolding handle_ack
handle_ack-Untouched h p =
    Untouched-trans p.rudp (parse_ack h.sn p.rudp) _ (parse_ack-Untouched h.sn p.rudp)
      (parse_fast_ack-Untouched h.sn h.ts (parse_ack h.sn p.rudp))

handle_wask-Untouched : (p : Pass) → Untouched p.rudp (handle_wask p).rudp
unfolding handle_wask
handle_wask-Untouched p = record { nxt = refl; wnd = refl; queue = refl; buf = refl }

-- The start `a` of the loop is fixed.
module _ (base : ℕ) (a : Rudp) (wnd : a.rcv_wnd < 2 ^ 32) where
  accept_push-Grown :
      (seg : Segment) (r : Rudp)
      → Grown base a r
      → IfDone (accept_push seg r) (λ x. Grown base a x.1)
  unfolding accept_push
  accept_push-Grown seg r v =
      let acked = Untouched-Grown base a r _ (push_ack-Untouched seg.sn seg.ts r) v in
      IfDone-if (ltb seg.sn (add32 r.rcv_nxt r.rcv_wnd)) _ (done (true, r)) (λ x. Grown base a x.1)
        (λ below.
          IfDone-if (ltb seg.sn r.rcv_nxt) (done (true, push_ack seg.sn seg.ts r)) _
            (λ x. Grown base a x.1) (λ old. acked)
            (λ inside. parse_data-Grown base a seg (push_ack seg.sn seg.ts r) wnd acked))
        (λ beyond. v)

  pub input_loop-Grown :
      (regular : Bool) (fuel : ℕ) (packet : List ℕ) (p : Pass)
      → Grown base a p.rudp
      → IfDone (input_loop regular fuel packet p) (HoldsAtEnd (Grown base a))
  input_loop-Grown regular fuel packet p v =
      input_loop-Holds (Grown base a)
        (record {
          push = accept_push-Grown;
          header =
              λ regular h p. Untouched-Grown base a p.rudp _ (take_header-Untouched regular h p);
          ack = λ h p. Untouched-Grown base a p.rudp _ (handle_ack-Untouched h p);
          wask = λ p. Untouched-Grown base a p.rudp _ (handle_wask-Untouched p);
        })
        regular fuel packet p v
