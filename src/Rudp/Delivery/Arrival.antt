-- ===== src/Rudp/Delivery/Arrival.antt =====
-- parseData: what a segment that arrives does to the receiving side.
use rudp_go.Common.{
  ℕ, ◌+◌, ◌^◌, ◌≤◌, ◌<◌, ◌≡◌, sym, ◌++◌, length, Bool, Bool-cases, inl, inr, true, false, ltb, leb,
  ◌||◌, if◌then◌else◌, add32, arith, done, Returns,
}
use rudp_go.Wire.{Segment}
use rudp_go.Rudp.{Rudp, mtu_limit}
use rudp_go.Rudp.Delivery.{move_ready, parse_data}
use rudp_go.Rudp.Delivery.Insert.{insert_sorted, has_sn, store_lem}
use rudp_go.Rudp.Delivery.Order.{
  InOrder, NoWrap, IsSettled, Moved, move_ready-Moved, insert_sorted-Ascends,
}

-- The test of parseData for a number outside the receive window.
abbrev pub is_outside : Segment → Rudp → Bool
is_outside seg r = leb (add32 r.rcv_nxt r.rcv_wnd) seg.sn || ltb seg.sn r.rcv_nxt

-- What a segment in the window must do: `x` is the reply and the state after it.
pub record Arrived (base : ℕ) (seg : Segment) (r : Rudp) (x : Bool × Rudp) : Type 0 where
  pub reply : x.0 ≡ has_sn seg.sn r.rcv_buf
  pub in_order : InOrder base x.1
  pub contents :
      x.1.rcv_queue ++ x.1.rcv_buf
      ≡ r.rcv_queue ++ (if x.0 then r.rcv_buf else insert_sorted seg r.rcv_buf)
  pub settled : IsSettled x.1

inside_from : (seg : Segment) (r : Rudp) → is_outside seg r ≡ false → r.rcv_nxt ≤ seg.sn
inside_from seg r h = ground arith

-- parseData of a segment in the receive window, on a receiving side in order: the reply says
-- whether a segment of that number was waiting already; if not, the segment takes its place in the
-- buffer, and otherwise it is dropped; then the queue has grown by every segment that was next in
-- turn, as far as the receive window lets it. So the queue still holds consecutive numbers, queue
-- and buffer together hold what they held and the new segment, each once, and nothing that could
-- be queued is left waiting. Conditions: the end of the window does not wrap at 2 ^ 32, and the
-- data fits a pooled buffer.
pub parse_data_lem :
    (base : ℕ) (seg : Segment) (r : Rudp)
    → InOrder base r
    → NoWrap r
    → length seg.payload ≤ mtu_limit
    → is_outside seg r ≡ false
    → Returns (parse_data seg r) (Arrived base seg r)
unfolding parse_data
parse_data_lem base seg r v wrap small inside =
    rw (inside, store_lem r.rcv_nxt seg r v.buffered small)
      (elim (Bool-cases (has_sn seg.sn r.rcv_buf)) [
        | inl there ↦ rw there (dropped there (move_ready-Moved base r v wrap))
        | inr new ↦ rw new (kept new (move_ready-Moved base stored (placed new) wrap))
      ])
  where
    stored : Rudp
    stored = record r { rcv_buf = insert_sorted seg r.rcv_buf }

    placed : has_sn seg.sn r.rcv_buf ≡ false → InOrder base stored
    placed new = record {
      buffered =
          insert_sorted-Ascends r.rcv_nxt seg r.rcv_buf (inside_from seg r inside) new v.buffered;
      queued = v.queued;
      next = v.next;
    }

    dropped :
        has_sn seg.sn r.rcv_buf ≡ true
        → Moved base r (move_ready r)
        → Arrived base seg r (true, move_ready r)
    dropped there m = record {
      reply = sym there;
      in_order = m.in_order;
      contents = m.contents;
      settled = m.settled;
    }

    kept :
        has_sn seg.sn r.rcv_buf ≡ false
        → Moved base stored (move_ready stored)
        → Arrived base seg r (false, move_ready stored)
    kept new m = record {
      reply = sym new;
      in_order = m.in_order;
      contents = m.contents;
      settled = m.settled;
    }

-- A segment outside the window changes nothing, and is reported like a repeated one.
pub parse_data_outside :
    (seg : Segment) (r : Rudp) → is_outside seg r ≡ true → parse_data seg r ≡ done (true, r)
unfolding parse_data
parse_data_outside seg r h = rw h

-- The window test compares plain numbers. Once the end of the window wraps at 2 ^ 32 (the next
-- number and the window are below it, their sum is not), parseData answers `true` to every
-- segment, the one that is next in turn included, and changes nothing.
pub parse_data_wraps :
    (seg : Segment) (r : Rudp)
    → r.rcv_nxt < 2 ^ 32
    → r.rcv_wnd < 2 ^ 32
    → 2 ^ 32 ≤ r.rcv_nxt + r.rcv_wnd
    → parse_data seg r ≡ done (true, r)
parse_data_wraps seg r nxt wnd wraps = parse_data_outside seg r (ground arith)
