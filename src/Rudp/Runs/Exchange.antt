-- ===== src/Rudp/Runs/Exchange.antt =====
-- Two endpoints exchange a message.
use rudp_go.Common.{
  ◌++◌, panic, ◌≡◌, ℕ, List, [], ◌∷◌, true, false, Outcome, done, ◌>>=◌, ℤ, pos, negsuc, refl,
  replicate, Returns, arith,
}
use rudp_go.Rudp.{Rudp, World, wait_snd, new_rudp}
use rudp_go.Rudp.Calls.{
  Call, send_bytes, receive_into, input_packet, flush_now, set_windows, release, perform_all,
}
use rudp_go.Rudp.Calls.Safety.{calls_return}
use rudp_go.Rudp.Flush.Packet.Bounds.{Within}
use rudp_go.Rudp.Flush.Window.{Filled, NoSendWrap}
use rudp_go.Rudp.Flush.Filling.{flush_fills, send_window-bound}
use rudp_go.Rudp.Input.Numbered.{IsOnward, input_goes_on}
use rudp_go.Wire.{Segment, Writer, encode_over_head, encode_data}
use rudp_go.Rudp.Input.Loop.{Pass, read_segment}
use rudp_go.Rudp.Input.Loop.Frames.{read_segment-encode, handled, acknowledged, then_next, is_push}
use rudp_go.Rudp.Flush.Transmit.{Resend, transmit}
use rudp_go.Rudp.Flush.Transmit.Oversize.{transmit-panics}
use rudp_go.Rudp.Send.{send}
use rudp_go.Rudp.Flush.{flush, send_window}
use rudp_go.Rudp.Flush.Safety.{Flushed, flush-Flushed}
use rudp_go.Rudp.Input.{input}
use rudp_go.Rudp.Input.Loop.Bounds.{Safe}
use rudp_go.Rudp.Input.Safety.{input-Safe}
use rudp_go.Rudp.Delivery.{receive}
use rudp_go.Rudp.Runs.{clock, fresh_world, small, push, receiver, sender, seven_bytes}
use rudp_go.Rudp.Delivery.Growth.{Grown}
use rudp_go.Rudp.Input.Ordered.{input_keeps_order}

deliver_all : List (List ℕ) → Rudp → World → Outcome (Rudp × World)
deliver_all [] r w = done (r, w)
deliver_all (p ∷ ps) r w = do (code, r', w') ← input clock p true true r w; deliver_all ps r' w'

-- Seven bytes in fragments of three, sent, received and read; the acknowledgements come back. The
-- numbers count the segments that the sender still holds, before and after these.
exchange : Outcome ((ℤ × List ℕ) × ℕ × ℕ)
exchange = do
  (code, a) ← send small seven_bytes
  (delay, a, w) ← flush clock false a fresh_world
  (b, v) ← deliver_all w.packets small fresh_world
  let (got, b') = receive 10 b
  (a', u) ← deliver_all v.packets a (record w { packets = [] })
  done (got, wait_snd a, wait_snd a')

-- An acknowledgement of segment 5 of conversation 7.
abbrev ack_packet : List ℕ
ack_packet =
    7 ∷ 0 ∷ 0 ∷ 0 ∷ 82 ∷ 0 ∷ 32 ∷ 0 ∷ 0 ∷ 0 ∷ 0 ∷ 0 ∷ 5 ∷ 0 ∷ 0 ∷ 0 ∷ 4 ∷ 0 ∷ 0 ∷ 0 ∷ 0 ∷ 0 ∷ 0 ∷ 0
    ∷ []

flush-Flushed_example : Returns (flush clock false sender fresh_world) (Flushed 27)
flush-Flushed_example = flush-Flushed clock false sender fresh_world (omega arith) tt

input-Safe_example :
    Returns (input clock ack_packet true true sender fresh_world) (λ x. Safe 27 x.1 x.2)
input-Safe_example =
    input-Safe clock ack_packet true true sender fresh_world (omega arith) (omega arith) tt

-- Three fragments wait; the peer's window holds five segments, and three are in flight.
abbrev busy : Rudp
busy = record sender { rmt_wnd = 5; snd_queue = push 0 1 (7 ∷ 8 ∷ 9 ∷ []) ∷ push 0 0 (4 ∷ []) ∷ [] }

busy_window : NoSendWrap (send_window busy) busy
busy_window = omega (arith, send_window-bound busy)

flush_fills_example :
    Returns (flush clock false busy fresh_world) (λ x. Filled busy x.1 (send_window busy))
flush_fills_example =
    flush_fills clock busy fresh_world (omega arith) tt
      (record { in_order = (refl, (refl, (refl, tt))); complete = refl }) busy_window

input_goes_on_example :
    Returns (input clock ack_packet true true sender fresh_world) (λ x. IsOnward sender x.1)
input_goes_on_example =
    input_goes_on clock ack_packet true true sender fresh_world (omega arith) (omega arith) tt
      (omega arith) (record { in_order = (refl, (refl, (refl, tt))); complete = refl })

-- Segment 5 of conversation 7 twice, with two bytes, and segment 9 without data. Segment 5 and
-- segment 6 behind it are queued, and 9 waits.
abbrev push_packet : List ℕ
push_packet = five ++ five ++ nine
  where
    five : List ℕ
    five =
        7 ∷ 0 ∷ 0 ∷ 0 ∷ 81 ∷ 0 ∷ 32 ∷ 0 ∷ 0 ∷ 0 ∷ 0 ∷ 0 ∷ 5 ∷ 0 ∷ 0 ∷ 0 ∷ 4 ∷ 0 ∷ 0 ∷ 0 ∷ 2 ∷ 0 ∷ 0
        ∷ 0 ∷ 3 ∷ 4 ∷ []

    nine : List ℕ
    nine =
        7 ∷ 0 ∷ 0 ∷ 0 ∷ 81 ∷ 0 ∷ 32 ∷ 0 ∷ 0 ∷ 0 ∷ 0 ∷ 0 ∷ 9 ∷ 0 ∷ 0 ∷ 0 ∷ 4 ∷ 0 ∷ 0 ∷ 0 ∷ 0 ∷ 0 ∷ 0
        ∷ 0 ∷ []

input_keeps_order_example :
    Returns (input clock push_packet true true receiver fresh_world) (λ x. Grown 4 receiver x.1)
input_keeps_order_example =
    input_keeps_order clock push_packet true true 4 receiver fresh_world (omega arith) (omega arith)
      tt (omega arith) (omega arith) (omega arith) (omega arith)

-- A message is queued and sent, an acknowledgement and garbage come in, and the RUDP is closed.
abbrev some_calls : List Call
some_calls =
    send_bytes seven_bytes
    ∷ flush_now false
    ∷ input_packet ack_packet true true
    ∷ input_packet (replicate 30 255) true true
    ∷ receive_into 100
    ∷ set_windows (pos 64) (negsuc 0)
    ∷ release
    ∷ []

calls_return_example :
    Returns (perform_all clock some_calls (new_rudp 7) fresh_world) (λ s. Within 1400 s.1)
calls_return_example = calls_return clock 7 some_calls fresh_world (omega arith) tt

-- Four bytes of data where the MTU leaves room for three.
abbrev too_long : Segment
too_long = push 0 0 (1 ∷ 2 ∷ 3 ∷ 4 ∷ [])

abbrev at_start : Resend
at_start = record {
  out = record { writer = record { written = []; ptr = replicate 27 0 }; world = fresh_world };
  current = 1000;
  min_rto = pos 100;
  change = 0;
  fast = 0;
  early = 0;
  lost = 0;
  dead = false;
  sent_buf = [];
}

transmit-panics_example : transmit clock small too_long too_long at_start ≡ panic
transmit-panics_example =
    transmit-panics clock small too_long too_long at_start (omega arith) (omega arith) (omega arith)

-- A pass in the middle of a packet, and a data segment with eight bytes behind it.
abbrev underway : Pass
underway = record {
  rudp = small;
  world = fresh_world;
  flag = false;
  latest = 0;
  in_segs = 1;
  window_slide = false;
}

-- A buffer with room for 30 bytes.
abbrev some_room : Writer
some_room = record { written = 1 ∷ []; ptr = replicate 30 0 }

read_segment-encode_example :
    Returns
      (encode_over_head (push 2 0 (4 ∷ 5 ∷ [])) some_room >>= encode_data (push 2 0 (4 ∷ 5 ∷ [])))
      λ w'.
        (frame : List ℕ) × (w'.written ≡ (1 ∷ []) ++ frame)
        × ((rest : List ℕ)
            → read_segment true (frame ++ rest) underway ≡ (
                handled true
                  (push 2 0 (4 ∷ 5 ∷ []))
                  (acknowledged true (push 2 0 (4 ∷ 5 ∷ [])) underway)
                >>= then_next rest))
read_segment-encode_example =
    read_segment-encode true (push 2 0 (4 ∷ 5 ∷ [])) some_room underway (omega arith) refl is_push
      (omega arith)
