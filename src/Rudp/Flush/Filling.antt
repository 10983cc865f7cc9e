-- ===== src/Rudp/Flush/Filling.antt =====
-- A whole flush: what it numbers, and what the loop over the send buffer keeps.
use mathlib.Core.List.{map}
use mathlib.Core.Path.{subst, ap₂}
use rudp_go.Common.{
  ℕ, ◌≤◌, ◌≡◌, refl, ap, ◌∙◌, List, [], ◌∷◌, ◌++◌, length, arith, IfDone, IfDone-bind, IfDone-then,
  IfDone-mono, Returns, Returns-IfDone, Returns-mono, true, false, suc,
}
use rudp_go.Wire.{Segment}
use rudp_go.Rudp.{Rudp, World, max}
use rudp_go.Rudp.Sized.{Sized}
use rudp_go.Rudp.Numbers.{Consecutive, IsNumbered, Unmoved}
use rudp_go.Rudp.Send.Fragments.{bytes_of}
use rudp_go.Rudp.Flush.Packet.{Out, start_out}
use rudp_go.Rudp.Flush.Packet.Bounds.{Within}
use rudp_go.Rudp.Flush.Transmit.{Resend, resend_all}
use rudp_go.Rudp.Flush.Transmit.Bounds.{message_part}
use rudp_go.Rudp.Flush.Transmit.Kept.{Keeps, resend_all-Keeps}
use rudp_go.Rudp.Flush.Safety.{Flushed, flush-Flushed}
use rudp_go.Rudp.Flush.Window.{NoSendWrap, Filled, fill_window_lem}
use rudp_go.Rudp.Flush.{
  update_probe, send_probe, send_acks, ack_segment, send_window, fill_window, resent_limit,
  adjust_cwnd, after_change, after_loss, at_least_one_segment, finish_flush, flush_push, flush_acks,
  flush_data, flush,
}

-- The same numbers, fragments and data in flight, and the same queue.
record SameSide (r r' : Rudp) : Type 0 where
  una : r'.snd_una ≡ r.snd_una
  nxt : r'.snd_nxt ≡ r.snd_nxt
  queue : r'.snd_queue ≡ r.snd_queue
  parts : map message_part r'.snd_buf ≡ map message_part r.snd_buf

parts-Consecutive :
    (n : ℕ) (xs ys : List Segment)
    → map message_part xs ≡ map message_part ys
    → Consecutive n ys
    → Consecutive n xs
parts-Consecutive n [] ys e h = tt
parts-Consecutive n (x ∷ xs) [] e h = cc
parts-Consecutive n (x ∷ xs) (y ∷ ys) e h =
    let head : message_part x ≡ message_part y = cc in
    (ap (λ (m : ℕ × ℕ × List ℕ). m.0) head ∙ h.0, parts-Consecutive (suc n) xs ys (cc) h.1)

parts-length :
    (xs ys : List Segment) → map message_part xs ≡ map message_part ys → length xs ≡ length ys
parts-length [] [] e = refl
parts-length [] (y ∷ ys) e = cc
parts-length (x ∷ xs) [] e = cc
parts-length (x ∷ xs) (y ∷ ys) e = ap suc (parts-length xs ys (cc))

parts-bytes_of :
    (xs ys : List Segment) → map message_part xs ≡ map message_part ys → bytes_of xs ≡ bytes_of ys
parts-bytes_of [] [] e = refl
parts-bytes_of [] (y ∷ ys) e = cc
parts-bytes_of (x ∷ xs) [] e = cc
parts-bytes_of (x ∷ xs) (y ∷ ys) e =
    let head : message_part x ≡ message_part y = cc in
    let same : x.payload ≡ y.payload = ap (λ (m : ℕ × ℕ × List ℕ). m.2) head in
    rw (same, parts-bytes_of xs ys (cc)) refl

SameSide-IsNumbered : (r r' : Rudp) → SameSide r r' → IsNumbered r → IsNumbered r'
SameSide-IsNumbered r r' e v = record {
  in_order = rw e.una (parts-Consecutive r.snd_una r'.snd_buf r.snd_buf e.parts v.in_order);
  complete = omega (arith, e.una, e.nxt, v.complete, parts-length r'.snd_buf r.snd_buf e.parts);
}

SameSide-Filled : (r r1 r2 : Rudp) (cwnd : ℕ) → SameSide r1 r2 → Filled r r1 cwnd → Filled r r2 cwnd
SameSide-Filled r r1 r2 cwnd e f = record {
  numbered = SameSide-IsNumbered r1 r2 e f.numbered;
  same_start = e.una ∙ f.same_start;
  bounded = rw (parts-length r2.snd_buf r1.snd_buf e.parts) f.bounded;
  used_up = rw (e.queue, parts-length r2.snd_buf r1.snd_buf e.parts) f.used_up;
  bytes = rw (e.queue, parts-bytes_of r2.snd_buf r1.snd_buf e.parts) f.bytes;
}

adjust_cwnd-SameSide :
    (change lost resent cwnd : ℕ) (r : Rudp) → SameSide r (adjust_cwnd change lost resent cwnd r)
unfolding adjust_cwnd after_change after_loss at_least_one_segment
adjust_cwnd-SameSide change lost resent cwnd r = ground arith

finish_flush-SameSide :
    (resent cwnd : ℕ) (r : Rudp) (res : Resend)
    → Keeps r.snd_buf res
    → SameSide r (finish_flush resent cwnd r res).1
unfolding finish_flush
finish_flush-SameSide resent cwnd r res p =
    let e = adjust_cwnd-SameSide res.change res.lost resent cwnd _ in
    record { una = e.una; nxt = e.nxt; queue = e.queue; parts = e.parts ∙ p }

flush_push-Filled :
    (clock : ℕ → ℕ) (r : Rudp) (so : Segment × Out)
    → IsNumbered r
    → NoSendWrap (send_window r) r
    → IfDone (flush_push clock r so) (λ x. Filled r x.1 (send_window r))
unfolding flush_push
flush_push-Filled clock r (seg, o) v h =
    IfDone-bind (resend_all clock r' seg _ _ r'.snd_buf _) _ (Keeps r'.snd_buf) _
      (resend_all-Keeps clock r' seg _ _ r'.snd_buf [] _ refl)
      λ res p.
        SameSide-Filled r r' _ (send_window r)
          (finish_flush-SameSide (resent_limit r') (send_window r) r' res p)
          (fill_window_lem (send_window r) r v h)
  where
    r' : Rudp
    r' = (fill_window (send_window r) r).1

-- The probes do not touch the send side.
record Unprobed (r r' : Rudp) : Type 0 where
  una : r'.snd_una ≡ r.snd_una
  nxt : r'.snd_nxt ≡ r.snd_nxt
  queue : r'.snd_queue ≡ r.snd_queue
  buf : r'.snd_buf ≡ r.snd_buf
  window : send_window r' ≡ send_window r

update_probe-Unprobed :
    (clock : ℕ → ℕ) (r : Rudp) (w : World)
    → Unprobed r (record (update_probe clock r w).0 { probe = 0 })
unfolding update_probe send_window
update_probe-Unprobed clock r w = ground arith

Unprobed-Filled :
    (r r1 r2 : Rudp) → Unprobed r r1 → Filled r1 r2 (send_window r1) → Filled r r2 (send_window r)
Unprobed-Filled r r1 r2 e f = record {
  numbered = f.numbered;
  same_start = f.same_start ∙ e.una;
  bounded =
      subst (λ n. length r2.snd_buf ≤ n) (ap₂ (λ buf n. max (length buf) n) e.buf e.window)
        f.bounded;
  used_up = rw (← e.window) f.used_up;
  bytes = f.bytes ∙ ap₂ (λ buf q. bytes_of buf ++ bytes_of q) e.buf e.queue;
}

flush_data-Filled :
    (clock : ℕ → ℕ) (r : Rudp) (so : Segment × Out)
    → IsNumbered r
    → NoSendWrap (send_window r) r
    → IfDone (flush_data clock r so) (λ x. Filled r x.1 (send_window r))
unfolding flush_data send_window
flush_data-Filled clock r (seg, o) v h =
    IfDone-then (send_probe _ _ _ _) _ _
      λ so1. IfDone-then (send_probe _ _ _ so1) _ _ λ so2. probed so2
  where
    r' : Rudp
    r' = record (update_probe clock r o.world).0 { probe = 0 }

    e : Unprobed r r'
    e = update_probe-Unprobed clock r o.world

    v' : IsNumbered r'
    v' = record {
      in_order = rw (e.una, e.buf) v.in_order;
      complete = rw (e.una, e.buf, e.nxt) v.complete;
    }

    probed :
        (so : Segment × Out) → IfDone (flush_push clock r' so) (λ x. Filled r x.1 (send_window r))
    probed so =
        IfDone-mono (flush_push clock r' so) _ _
          (flush_push-Filled clock r' so v' (rw (e.una, e.nxt, e.queue, e.window) h))
          λ x f. Unprobed-Filled r r' x.1 e f

pub flush-Filled :
    (clock : ℕ → ℕ) (r : Rudp) (w : World)
    → IsNumbered r
    → NoSendWrap (send_window r) r
    → IfDone (flush clock false r w) (λ x. Filled r x.1 (send_window r))
unfolding flush send_window
flush-Filled clock r w v h = IfDone-then (start_out r w) _ _ λ o.
    IfDone-then (send_acks r r.ack_list (ack_segment r, o)) _ _ λ so.
      IfDone-mono (flush_data clock r' so) _ _
        (flush_data-Filled clock r' so (record { in_order = v.in_order; complete = v.complete }) h)
        λ x f. record {
          numbered = f.numbered;
          same_start = f.same_start;
          bounded = f.bounded;
          used_up = f.used_up;
          bytes = f.bytes;
        }
  where
    r' : Rudp
    r' = record r { ack_list = [] }

-- A flush of acknowledgements alone does not touch the send side.
pub flush_acks-Unmoved :
    (clock : ℕ → ℕ) (r : Rudp) (w : World) → IfDone (flush clock true r w) (λ x. Unmoved r x.1)
unfolding flush flush_acks
flush_acks-Unmoved clock r w = IfDone-then (start_out r w) _ _ λ o.
    IfDone-then (send_acks r r.ack_list (ack_segment r, o)) _ _
      λ so. record { una = refl; nxt = refl; queue = refl; buf = refl; wnd = refl }

pub send_window-bound : (r : Rudp) → send_window r ≤ r.snd_wnd
unfolding send_window
send_window-bound r = ground arith

-- A whole flush of a RUDP with sound sizes whose send buffer holds exactly the numbers from sndUna
-- to sndNxt: it returns; the buffer again holds exactly the numbers from the same sndUna to the new
-- sndNxt; their count is at most the greater of what it was and the window, which is the least of
-- send window, peer's window and (under congestion control) congestion window; the queue is used up
-- unless their count has reached that window; and the bytes of buffer and queue, in order, are what they were.
-- Condition: no number in question reaches 2 ^ 32, and no earlier packet is longer than the MTU.
pub flush_fills :
    (clock : ℕ → ℕ) (r : Rudp) (w : World)
    → Sized r
    → Within r.mtu w
    → IsNumbered r
    → NoSendWrap (send_window r) r
    → Returns (flush clock false r w) (λ x. Filled r x.1 (send_window r))
flush_fills clock r w v h n k =
    Returns-mono (flush clock false r w) _ _
      (Returns-IfDone (flush clock false r w) (Flushed r.mtu) _ (flush-Flushed clock false r w v h)
        (flush-Filled clock r w n k))
      λ x both. both.1
