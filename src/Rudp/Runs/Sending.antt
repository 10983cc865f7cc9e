-- ===== src/Rudp/Runs/Sending.antt =====
-- The theorems on the sending side at concrete states.
use mathlib.Core.List.{map}
use rudp_go.Common.{
  ◌∷◌, drop, replicate, inr, ℕ, List, [], ◌++◌, done, pos, negsuc, ◌≡◌, refl, length, Returns,
  arith, ◌≤◌,
}
use rudp_go.Wire.{Segment}
use rudp_go.Rudp.{Rudp, rto_max}
use rudp_go.Rudp.Send.{send}
use rudp_go.Rudp.Send.Stream.{Streamed, send_streams}
use rudp_go.Rudp.Send.Fragments.{Fragmented, send_lem, send_refuses}
use rudp_go.Rudp.Delivery.RoundTrip.{receive-send}
use rudp_go.Rudp.Delivery.{receive}
use rudp_go.Rudp.Acks.{parse_una, parse_ack, parse_fast_ack}
use rudp_go.Rudp.Acks.Una.{parse_una_lem}
use rudp_go.Rudp.Acks.Marks.{acked_by, skipped_by, parse_ack_lem, parse_fast_ack_lem}
use rudp_go.Rudp.Numbers.{Below, From}
use rudp_go.Rudp.Rto.{update_rto}
use rudp_go.Rudp.Rto.Bounds.{update_rto_bounds}
use rudp_go.Rudp.Runs.{push, receiver, small, sender, seven_bytes}

-- The wire changes numbers, times and windows only.
abbrev numbered : Segment → Segment
numbered s = record s { sn = 5; ts = 1000; una = 2 }

receive-send_example : Returns (send small seven_bytes) λ x.
    let sent = drop 0 x.1.snd_queue in
    let (reply, b') =
      receive 10 (record receiver { rcv_queue = map numbered sent ++ push 8 0 (6 ∷ []) ∷ [] }) in
    (reply ≡ (pos 7, seven_bytes))
    × (b'.rcv_queue ++ b'.rcv_buf ≡ (push 8 0 (6 ∷ []) ∷ []) ++ receiver.rcv_buf)
receive-send_example =
    receive-send small receiver seven_bytes (push 8 0 (6 ∷ []) ∷ []) 10 numbered (omega arith) refl
      (omega arith) (omega arith) (omega arith) (λ s. (refl, refl))

send_lem_example : Returns (send small seven_bytes) (Fragmented small seven_bytes)
send_lem_example = send_lem small seven_bytes (omega arith) refl (omega arith) (omega arith)

abbrev long_message : List ℕ
long_message = replicate 766 1

send_refuses_example : send small long_message ≡ done (negsuc 1, small)
send_refuses_example = send_refuses small long_message (omega arith) refl (inr (omega arith))

parse_una_lem_example :
    let (count, r') = parse_una 6 sender in
    (removed : List Segment) × (sender.snd_buf ≡ removed ++ r'.snd_buf)
    × (count ≡ length removed)
    × Below 6 removed
    × From 6 r'.snd_buf
    × (r' ≡ record sender { snd_buf = r'.snd_buf })
parse_una_lem_example = parse_una_lem 6 4 sender (omega arith)

parse_ack_lem_example :
    parse_ack 5 sender ≡ record sender { snd_buf = map (acked_by 5) sender.snd_buf }
parse_ack_lem_example = parse_ack_lem 5 4 sender (omega arith)

parse_fast_ack_lem_example :
    parse_fast_ack 6 0 sender ≡ record sender { snd_buf = map (skipped_by 6 0) sender.snd_buf }
parse_fast_ack_lem_example = parse_fast_ack_lem 6 0 4 sender (omega arith)

update_rto_bounds_example :
    let r' = update_rto (negsuc 4) small in (100 ≤ r'.rx_rto) × (r'.rx_rto ≤ rto_max)
update_rto_bounds_example = update_rto_bounds (negsuc 4) small (omega arith)

-- A stream: the last segment has room for two bytes.
abbrev streaming : Rudp
streaming = record small { stream = 1; snd_queue = push 0 0 (9 ∷ []) ∷ [] }

send_streams_example : Returns (send streaming seven_bytes) (Streamed streaming seven_bytes)
send_streams_example =
    send_streams streaming seven_bytes (omega arith) (omega arith) (omega arith) (omega arith)
