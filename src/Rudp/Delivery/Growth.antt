-- ===== src/Rudp/Delivery/Growth.antt =====
-- parseData on any segment: the receive queue grows, in order.
use rudp_go.Common.{
  ℕ, ◌^◌, ◌<◌, ◌≡◌, refl, sym, ap, ◌∙◌, List, [], ◌++◌, append_assoc, append-nil, length, take,
  Bool-cases, inl, inr, false, IfDone, IfDone-both, IfDone-Returns, lt→not_leb, IfDone-then,
  IfDone-bind, IfDone-if, arith,
}
use mathlib.Core.List.{reverse}
use mathlib.Core.Path.{subst}
use native.Mathlib.Decide.{dec_le}
use rudp_go.Wire.{Segment}
use rudp_go.Rudp.{Rudp, mtu_limit, new_segment}
use rudp_go.Rudp.Receiving.{Untouched}
use rudp_go.Rudp.Delivery.{find_place, store, move_ready, ready_count, parse_data}
use rudp_go.Rudp.Delivery.Order.{InOrder, NoWrap, IsSettled, move_ready-Moved}
use rudp_go.Rudp.Delivery.Arrival.{is_outside, Arrived, parse_data_lem, parse_data_outside}

-- The receiving side `r` has come from `a`: it is in order with nothing due, and the queue has
-- what it had, and more behind it.
pub record Grown (base : ℕ) (a r : Rudp) : Type 0 where
  pub in_order : InOrder base r
  pub settled : IsSettled r
  pub small : r.rcv_nxt < 2 ^ 32
  pub wnd : r.rcv_wnd ≡ a.rcv_wnd
  pub more : List Segment
  pub queue : r.rcv_queue ≡ a.rcv_queue ++ more

pub Untouched-Grown : (base : ℕ) (a r r' : Rudp) → Untouched r r' → Grown base a r → Grown base a r'
Untouched-Grown base a r r' e v = record {
  in_order = record {
    buffered = rw (e.nxt, e.buf) v.in_order.buffered;
    queued = rw e.queue v.in_order.queued;
    next = rw (e.queue, e.nxt) v.in_order.next;
  };
  settled = rw (e.wnd, e.nxt, e.queue, e.buf) v.settled;
  small = omega (arith, e.nxt, v.small);
  wnd = e.wnd ∙ v.wnd;
  more = v.more;
  queue = e.queue ∙ v.queue;
}

-- Only the queue's end and the buffer change.
record Longer (r r' : Rudp) : Type 0 where
  small : r'.rcv_nxt < 2 ^ 32
  wnd : r'.rcv_wnd ≡ r.rcv_wnd
  more : List Segment
  queue : r'.rcv_queue ≡ r.rcv_queue ++ more

move_ready-Longer :
    (r s : Rudp) → s.rcv_wnd ≡ r.rcv_wnd → s.rcv_queue ≡ r.rcv_queue → Longer r (move_ready s)
unfolding move_ready
move_ready-Longer r s ew eq = record {
  small = omega arith;
  wnd = ew;
  more = take (ready_count s.rcv_wnd s.rcv_nxt (length s.rcv_queue) s.rcv_buf) s.rcv_buf;
  queue =
      ap (λ q. q ++ take (ready_count s.rcv_wnd s.rcv_nxt (length s.rcv_queue) s.rcv_buf) s.rcv_buf)
        eq;
}

store-queue :
    (seg : Segment) (r : Rudp)
    → IfDone (store seg r) (λ x. (x.1.rcv_wnd ≡ r.rcv_wnd) × (x.1.rcv_queue ≡ r.rcv_queue))
unfolding store
store-queue seg r =
    IfDone-if (find_place seg.sn (reverse r.rcv_buf)).0 _ _ _ (λ repeat. (refl, refl))
      (λ new. IfDone-then (new_segment seg.payload) _ _ λ bytes. (refl, refl))

parse_data-Longer :
    (seg : Segment) (r : Rudp) → r.rcv_nxt < 2 ^ 32 → IfDone (parse_data seg r) (λ x. Longer r x.1)
unfolding parse_data
parse_data-Longer seg r small =
    IfDone-if (is_outside seg r) _ _ (λ x. Longer r x.1)
      (λ outside. record {
        small = small;
        wnd = refl;
        more = [];
        queue = sym (append-nil r.rcv_queue);
      })
      (λ inside.
        IfDone-bind (store seg r) _ _ _ (store-queue seg r) λ x e. move_ready-Longer r x.1 e.0 e.1)

inside-NoWrap :
    (seg : Segment) (r : Rudp)
    → r.rcv_nxt < 2 ^ 32
    → r.rcv_wnd < 2 ^ 32
    → is_outside seg r ≡ false
    → NoWrap r
inside-NoWrap seg r nxt wnd inside = ground arith

-- A segment that is too long for a pooled buffer is not stored.
store_oversized :
    (seg : Segment) (r : Rudp)
    → mtu_limit < length seg.payload
    → IfDone (store seg r) (λ x. x.1 ≡ r)
unfolding store
store_oversized seg r big =
    IfDone-if (find_place seg.sn (reverse r.rcv_buf)).0 _ _ _ (λ repeat. refl)
      (λ new. rw (lt→not_leb _ _ big) tt)

parse_data-InOrder :
    (base : ℕ) (seg : Segment) (r : Rudp)
    → InOrder base r
    → NoWrap r
    → is_outside seg r ≡ false
    → IfDone (parse_data seg r) (λ x. InOrder base x.1 × IsSettled x.1)
unfolding parse_data
parse_data-InOrder base seg r v wrap inside = elim (dec_le (length seg.payload) mtu_limit) [
  | yes fits ↦
      IfDone-Returns (parse_data seg r) (Arrived base seg r) _
        (parse_data_lem base seg r v wrap fits inside) λ x a. (a.in_order, a.settled)
  | no big ↦ rw inside (
      IfDone-bind (store seg r) _ (λ x. x.1 ≡ r) _ (store_oversized seg r (omega arith))
        λ x e.
          let m = move_ready-Moved base r v wrap in
          subst (λ s. InOrder base (move_ready s) × IsSettled (move_ready s)) (sym e)
            (m.in_order, m.settled))
]

-- parseData of any segment, wherever the window ends.
pub parse_data-Grown :
    (base : ℕ) (a : Rudp) (seg : Segment) (r : Rudp)
    → a.rcv_wnd < 2 ^ 32
    → Grown base a r
    → IfDone (parse_data seg r) (λ x. Grown base a x.1)
parse_data-Grown base a seg r wnd v = elim (Bool-cases (is_outside seg r)) [
  | inl outside ↦ rw (parse_data_outside seg r outside) v
  | inr inside ↦
      IfDone-both (parse_data seg r) _ _ _
        (parse_data-InOrder base seg r v.in_order
          (inside-NoWrap seg r v.small (omega (arith, v.wnd)) inside) inside)
        (parse_data-Longer seg r v.small)
        λ x o l. record {
          in_order = o.0;
          settled = o.1;
          small = l.small;
          wnd = l.wnd ∙ v.wnd;
          more = v.more ++ l.more;
          queue = l.queue ∙ ap (λ q. q ++ l.more) v.queue ∙ append_assoc a.rcv_queue v.more l.more;
        }
]
