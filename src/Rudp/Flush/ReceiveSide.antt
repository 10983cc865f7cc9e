-- ===== src/Rudp/Flush/ReceiveSide.antt =====
-- A whole flush and the receiving side.
use rudp_go.Common.{ℕ, [], refl, arith, Bool, true, false, IfDone, IfDone-then, IfDone-mono}
use rudp_go.Wire.{Segment}
use rudp_go.Rudp.{Rudp, World}
use rudp_go.Rudp.Receiving.{Untouched, Untouched-trans}
use rudp_go.Rudp.Flush.Packet.{Out, start_out}
use rudp_go.Rudp.Flush.Transmit.{Resend, resend_all}
use rudp_go.Rudp.Flush.{
  update_probe, send_probe, send_acks, ack_segment, send_window, fill_window, resent_limit,
  adjust_cwnd, after_change, after_loss, at_least_one_segment, finish_flush, flush_push, flush_acks,
  flush_data, flush,
}

adjust_cwnd-Untouched :
    (change lost resent cwnd : ℕ) (r : Rudp) → Untouched r (adjust_cwnd change lost resent cwnd r)
unfolding adjust_cwnd after_change after_loss at_least_one_segment
adjust_cwnd-Untouched change lost resent cwnd r = ground arith

finish_flush-Untouched :
    (resent cwnd : ℕ) (r : Rudp) (res : Resend) → Untouched r (finish_flush resent cwnd r res).1
unfolding finish_flush
finish_flush-Untouched resent cwnd r res =
    let e = adjust_cwnd-Untouched res.change res.lost resent cwnd _ in
    record { nxt = e.nxt; wnd = e.wnd; queue = e.queue; buf = e.buf }

fill_window-Untouched : (cwnd : ℕ) (r : Rudp) → Untouched r (fill_window cwnd r).1
unfolding fill_window
fill_window-Untouched cwnd r = record { nxt = refl; wnd = refl; queue = refl; buf = refl }

flush_push-Untouched :
    (clock : ℕ → ℕ) (r : Rudp) (so : Segment × Out)
    → IfDone (flush_push clock r so) (λ x. Untouched r x.1)
unfolding flush_push
flush_push-Untouched clock r (seg, o) =
    IfDone-then (resend_all clock r' seg _ _ r'.snd_buf _) _ _ λ res.
      Untouched-trans r r' _ (fill_window-Untouched (send_window r) r)
        (finish_flush-Untouched (resent_limit r') (send_window r) r' res)
  where
    r' : Rudp
    r' = (fill_window (send_window r) r).1

update_probe-Untouched :
    (clock : ℕ → ℕ) (r : Rudp) (w : World)
    → Untouched r (record (update_probe clock r w).0 { probe = 0 })
unfolding update_probe
update_probe-Untouched clock r w = ground arith

flush_data-Untouched :
    (clock : ℕ → ℕ) (r : Rudp) (so : Segment × Out)
    → IfDone (flush_data clock r so) (λ x. Untouched r x.1)
unfolding flush_data
flush_data-Untouched clock r (seg, o) = IfDone-then (send_probe _ _ _ _) _ _ λ so1.
    IfDone-then (send_probe _ _ _ so1) _ _ λ so2.
      IfDone-mono (flush_push clock r' so2) _ _ (flush_push-Untouched clock r' so2)
        λ x e. Untouched-trans r r' x.1 (update_probe-Untouched clock r o.world) e
  where
    r' : Rudp
    r' = record (update_probe clock r o.world).0 { probe = 0 }

pub flush-Untouched :
    (clock : ℕ → ℕ) (ack_only : Bool) (r : Rudp) (w : World)
    → IfDone (flush clock ack_only r w) (λ x. Untouched r x.1)
unfolding flush flush_acks
flush-Untouched clock true r w = IfDone-then (start_out r w) _ _ λ o.
    IfDone-then (send_acks r r.ack_list (ack_segment r, o)) _ _
      λ so. record { nxt = refl; wnd = refl; queue = refl; buf = refl }
flush-Untouched clock false r w = IfDone-then (start_out r w) _ _ λ o.
    IfDone-then (send_acks r r.ack_list (ack_segment r, o)) _ _ λ so.
      IfDone-mono (flush_data clock (record r { ack_list = [] }) so) _ _
        (flush_data-Untouched clock (record r { ack_list = [] }) so)
        λ x e. record { nxt = e.nxt; wnd = e.wnd; queue = e.queue; buf = e.buf }
