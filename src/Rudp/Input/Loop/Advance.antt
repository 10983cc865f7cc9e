-- ===== src/Rudp/Input/Loop/Advance.antt =====
-- The loop of `Input` and the numbers in flight.
use rudp_go.Common.{
  ℕ, refl, List, IfDone, IfDone-mono, ltb, if◌then◌else◌, Bool, true, false, Bool-cases, inl, inr,
  add32,
}
use rudp_go.Wire.{Segment, Header}
use rudp_go.Rudp.{Rudp}
use rudp_go.Rudp.Numbers.{Advances, Advances-trans, Unmoved, Unmoved-Advances}
use rudp_go.Rudp.Acks.{parse_ack, push_ack}
use rudp_go.Rudp.Acks.Advance.{
  parse_una-Advances, parse_ack-Advances, parse_fast_ack-Advances, push_ack-Unmoved,
}
use rudp_go.Rudp.Delivery.{parse_data}
use rudp_go.Rudp.Delivery.SendSide.{parse_data-Unmoved, itself, Unmoved-trans}
use rudp_go.Rudp.Input.Loop.Keeping.{HoldsAtEnd, input_loop-Holds}
use rudp_go.Rudp.Input.Loop.{Pass, accept_push, handle_ack, handle_wask, take_header, input_loop}

accept_push-Unmoved : (seg : Segment) (r : Rudp) → IfDone (accept_push seg r) (λ x. Unmoved r x.1)
unfolding accept_push
accept_push-Unmoved seg r = elim (Bool-cases (ltb seg.sn (add32 r.rcv_nxt r.rcv_wnd))) [
  | inr beyond ↦ rw beyond (itself r)
  | inl below ↦ elim (Bool-cases (ltb seg.sn r.rcv_nxt)) [
    | inl old ↦ rw (below, old) (push_ack-Unmoved seg.sn seg.ts r)
    | inr inside ↦
        rw (below, inside)
          (IfDone-mono (parse_data seg (push_ack seg.sn seg.ts r)) _ _
            (parse_data-Unmoved seg (push_ack seg.sn seg.ts r))
            λ x e. Unmoved-trans r _ x.1 (push_ack-Unmoved seg.sn seg.ts r) e)
  ]
]

-- The start `a` of the loop is fixed; a pass has advanced from it.
module _ (a : Rudp) where
  abbrev Ahead : Pass → Type 0
  Ahead p = Advances a p.rudp

  push-Ahead :
      (seg : Segment) (r : Rudp) → Advances a r → IfDone (accept_push seg r) (λ x. Advances a x.1)
  push-Ahead seg r v =
      IfDone-mono (accept_push seg r) (λ x. Unmoved r x.1) _ (accept_push-Unmoved seg r)
        λ x e. Advances-trans a r x.1 v (Unmoved-Advances r x.1 e v.numbered)

  take_header-Ahead :
      (regular : Bool) (h : Header) (p : Pass) → Ahead p → Ahead (take_header regular h p)
  unfolding take_header
  take_header-Ahead regular h p v =
      Advances-trans a (start regular) _ (started regular)
        (parse_una-Advances h.una (start regular) (started regular).numbered)
    where
      start : Bool → Rudp
      start b = if b then record p.rudp { rmt_wnd = h.wnd } else p.rudp

      started : (b : Bool) → Advances a (start b)
      started true = Advances-trans a p.rudp _ v (
          Unmoved-Advances p.rudp _
            (record { una = refl; nxt = refl; queue = refl; buf = refl; wnd = refl }) v.numbered)
      started false = v

  handle_ack-Ahead : (h : Header) (p : Pass) → Ahead p → Ahead (handle_ack h p)
  unfolding handle_ack
  handle_ack-Ahead h p v =
      let marked = parse_ack-Advances h.sn p.rudp v.numbered in
      Advances-trans a p.rudp _ v (
        Advances-trans p.rudp (parse_ack h.sn p.rudp) _ marked
          (parse_fast_ack-Advances h.sn h.ts (parse_ack h.sn p.rudp) marked.numbered))

  handle_wask-Ahead : (p : Pass) → Ahead p → Ahead (handle_wask p)
  unfolding handle_wask
  handle_wask-Ahead p v = Advances-trans a p.rudp _ v (
      Unmoved-Advances p.rudp _
        (record { una = refl; nxt = refl; queue = refl; buf = refl; wnd = refl }) v.numbered)

  pub input_loop-Ahead :
      (regular : Bool) (fuel : ℕ) (packet : List ℕ) (p : Pass)
      → Ahead p
      → IfDone (input_loop regular fuel packet p) (HoldsAtEnd (Advances a))
  input_loop-Ahead regular fuel packet p v =
      input_loop-Holds (Advances a)
        (record {
          push = push-Ahead;
          header = take_header-Ahead;
          ack = handle_ack-Ahead;
          wask = handle_wask-Ahead;
        })
        regular fuel packet p v
