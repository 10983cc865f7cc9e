-- ===== src/Rudp/Acks/ReceiveSide.antt =====
-- Acknowledgements and the receiving side.
use rudp_go.Common.{ℕ, refl, arith}
use rudp_go.Rudp.{Rudp}
use rudp_go.Rudp.Receiving.{Untouched}
use rudp_go.Rudp.Acks.{parse_una, update_snd_una, parse_ack, parse_fast_ack, push_ack}

pub parse_una-Untouched : (una : ℕ) (r : Rudp) → Untouched r (update_snd_una (parse_una una r).1)
unfolding parse_una update_snd_una
parse_una-Untouched una r = ground arith

pub parse_ack-Untouched : (sn : ℕ) (r : Rudp) → Untouched r (parse_ack sn r)
unfolding parse_ack
parse_ack-Untouched sn r = ground arith

pub parse_fast_ack-Untouched : (sn ts : ℕ) (r : Rudp) → Untouched r (parse_fast_ack sn ts r)
unfolding parse_fast_ack
parse_fast_ack-Untouched sn ts r = ground arith

pub push_ack-Untouched : (sn ts : ℕ) (r : Rudp) → Untouched r (push_ack sn ts r)
unfolding push_ack
push_ack-Untouched sn ts r = record { nxt = refl; wnd = refl; queue = refl; buf = refl }
