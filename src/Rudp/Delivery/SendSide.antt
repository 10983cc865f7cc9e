-- ===== src/Rudp/Delivery/SendSide.antt =====
-- parseData and the send side.
use mathlib.Core.List.{reverse}
use rudp_go.Common.{
  refl, ◌∙◌, Bool-cases, inl, inr, IfDone, IfDone-then, IfDone-bind, leb, ltb, ◌||◌, add32,
}
use rudp_go.Wire.{Segment}
use rudp_go.Rudp.{Rudp, new_segment}
use rudp_go.Rudp.Numbers.{Unmoved}
use rudp_go.Rudp.Delivery.{find_place, store, move_ready, parse_data}

pub itself : (r : Rudp) → Unmoved r r
itself r = record { una = refl; nxt = refl; queue = refl; buf = refl; wnd = refl }

move_ready-Unmoved : (r r' : Rudp) → Unmoved r r' → Unmoved r (move_ready r')
unfolding move_ready
move_ready-Unmoved r r' e = record {
  una = e.una;
  nxt = e.nxt;
  queue = e.queue;
  buf = e.buf;
  wnd = e.wnd;
}

store-Unmoved : (seg : Segment) (r : Rudp) → IfDone (store seg r) (λ x. Unmoved r x.1)
unfolding store
store-Unmoved seg r = elim (Bool-cases (find_place seg.sn (reverse r.rcv_buf)).0) [
  | inl repeat ↦ rw repeat (itself r)
  | inr new ↦ rw new (
      IfDone-then (new_segment seg.payload) _ _
        λ bytes. record { una = refl; nxt = refl; queue = refl; buf = refl; wnd = refl })
]

pub parse_data-Unmoved : (seg : Segment) (r : Rudp) → IfDone (parse_data seg r) (λ x. Unmoved r x.1)
unfolding parse_data
parse_data-Unmoved seg r =
    elim (Bool-cases (leb (add32 r.rcv_nxt r.rcv_wnd) seg.sn || ltb seg.sn r.rcv_nxt)) [
      | inl outside ↦ rw outside (itself r)
      | inr inside ↦ rw inside (
          IfDone-bind (store seg r) _ (λ x. Unmoved r x.1) _ (store-Unmoved seg r)
            λ x e. move_ready-Unmoved r x.1 e)
    ]

pub Unmoved-trans : (a b c : Rudp) → Unmoved a b → Unmoved b c → Unmoved a c
Unmoved-trans a b c e f = record {
  una = f.una ∙ e.una;
  nxt = f.nxt ∙ e.nxt;
  queue = f.queue ∙ e.queue;
  buf = f.buf ∙ e.buf;
  wnd = f.wnd ∙ e.wnd;
}
