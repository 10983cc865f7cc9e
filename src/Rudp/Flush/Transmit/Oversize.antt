-- ===== src/Rudp/Flush/Transmit/Oversize.antt =====
-- The loop of `flush` at a segment that is too long for the MTU.
use rudp_go.Common.{
  ℕ, ◌+◌, ◌≤◌, ◌<◌, ◌≡◌, length, panic, done, ◌>>=◌, Outcome, bind_assoc, ap, ◌∙◌, [], ◌∷◌, ◌++◌,
  leb, ◌||◌,
}
use rudp_go.Wire.{Segment, overhead}
use rudp_go.Rudp.{Rudp, current_ms}
use rudp_go.Rudp.Flush.Packet.{Out, make_space, encode_segment}
use rudp_go.Rudp.Flush.Packet.Bounds.{oversize-panics}
use rudp_go.Rudp.Flush.Transmit.{Resend, stamp, transmit}

-- A segment whose data is longer than the MTU leaves beside the reserve and the header, as when
-- SetMtu has made the MTU smaller under it, cannot be sent: the copy of its data is followed by a
-- slice past the end of the buffer, and the flush panics. Condition: the buffer has the MTU's size,
-- and the packet starts behind the reserve.
pub transmit-panics :
    (clock : ℕ → ℕ) (r : Rudp) (seg s : Segment) (l : Resend)
    → length l.out.writer.written + length l.out.writer.ptr ≡ r.mtu
    → r.reserved ≤ length l.out.writer.written
    → r.mtu < r.reserved + overhead + length s.payload
    → transmit clock r seg s l ≡ panic
unfolding transmit
transmit-panics clock r seg s l size start large =
    bind_assoc (make_space r (overhead + length s.payload) o) (encode_segment s') _
    ∙ ap (λ m. m >>= sent) (oversize-panics r s' o size start large)
  where
    now : ℕ
    now = (current_ms clock l.out.world).0

    o : Out
    o = record l.out { world = (current_ms clock l.out.world).1 }

    s' : Segment
    s' = stamp now seg s

    sent : Out → Outcome Resend
    sent o' = done (record l {
      out = o';
      current = now;
      dead = l.dead || leb r.dead_link s'.xmit;
      sent_buf = l.sent_buf ++ s' ∷ [];
    })
