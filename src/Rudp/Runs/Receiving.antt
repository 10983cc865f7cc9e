-- ===== src/Rudp/Runs/Receiving.antt =====
-- The theorems on the receiving side at concrete states.
use rudp_go.Common.{◌^◌, ◌-◌, List, [], ◌∷◌, true, done, pos, ◌≡◌, refl, Returns, arith}
use rudp_go.Wire.{Segment}
use rudp_go.Rudp.{Rudp}
use rudp_go.Rudp.Delivery.{parse_data, receive}
use rudp_go.Rudp.Delivery.Arrival.{Arrived, parse_data_lem, parse_data_wraps}
use rudp_go.Rudp.Delivery.Incomplete.{receive_incomplete}
use rudp_go.Rudp.Delivery.Messages.{Received, receive_lem}
use rudp_go.Rudp.Runs.{small, receiver, reader, push}

abbrev fifth : Segment
fifth = push 5 0 (3 ∷ 4 ∷ [])

parse_data_lem_example : Returns (parse_data fifth receiver) (Arrived 4 fifth receiver)
parse_data_lem_example =
    parse_data_lem 4 fifth receiver (omega arith) (omega arith) (omega arith) refl

abbrev late : Rudp
late = record small { rcv_nxt = 2 ^ 32 - 10 }

-- The segment that is next in turn is refused.
parse_data_wraps_example : parse_data (push (2 ^ 32 - 10) 0 []) late ≡ done (true, late)
parse_data_wraps_example =
    parse_data_wraps (push (2 ^ 32 - 10) 0 []) late (omega arith) (omega arith) (omega arith)

abbrev first_message : List Segment
first_message = push 4 1 (1 ∷ 2 ∷ []) ∷ push 5 0 (3 ∷ []) ∷ []

abbrev second_part : List Segment
second_part = push 6 1 (9 ∷ []) ∷ []

receive_lem_example : Received 4 first_message second_part reader (receive 10 reader)
receive_lem_example =
    receive_lem 4 10 first_message second_part reader (omega arith) (omega arith) (omega arith) refl
      (omega arith) (omega arith) (omega arith)

-- Two of the 256 fragments of a message.
abbrev far_from_end : Rudp
far_from_end = record small {
  rcv_nxt = 2;
  rcv_queue = push 0 255 (1 ∷ 2 ∷ []) ∷ push 1 254 (3 ∷ []) ∷ [];
}

receive_incomplete_example : (receive 10 far_from_end).0 ≡ (pos 3, 1 ∷ 2 ∷ 3 ∷ [])
receive_incomplete_example =
    receive_incomplete 10 (push 0 255 (1 ∷ 2 ∷ [])) (push 1 254 (3 ∷ []) ∷ []) far_from_end refl
      refl (omega arith) (omega arith)
