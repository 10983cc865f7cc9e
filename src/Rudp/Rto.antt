-- ===== src/Rudp/Rto.antt =====
-- `updateRTO` of rudp.go, in int32 and uint32 arithmetic.
pub mod Bounds
pub mod SendSide
pub mod ReceiveSide
use rudp_go.Common.{
  ℕ, ◌+◌, ◌*◌, ◌%◌, ◌^◌, ◌≤◌, ◌<◌, ◌≡◌, Bool, leb, ltb, ◌==◌, if◌then◌else◌, ℤ, pos, negsuc,
  pos_part, neg_part, ◌+ℤ◌, ◌-ℤ◌, scale, quot, halve, ltb_ℤ, wrap_int32, to_uint32, to_int32, add32,
  mul32, arith,
}
use rudp_go.Rudp.{Rudp, max, min, bound, rto_max}

abbrev pub is_zero : ℤ → Bool
is_zero v = pos_part v + neg_part v == 0

abbrev pub negate_if_negative : ℤ → ℤ
negate_if_negative d = if ltb_ℤ d (pos 0) then wrap_int32 (pos 0 -ℤ d) else d

abbrev pub smoothed_val : ℤ → ℤ → ℤ → ℤ
smoothed_val val srtt rtt =
    quot (wrap_int32 (wrap_int32 (scale 3 val) +ℤ negate_if_negative (wrap_int32 (srtt -ℤ rtt)))) 4

abbrev pub at_least_one : ℤ → ℤ
at_least_one v = if ltb_ℤ v (pos 1) then pos 1 else v

abbrev pub smoothed_srtt : ℤ → ℤ → ℤ
smoothed_srtt srtt rtt = at_least_one (quot (wrap_int32 (wrap_int32 (scale 7 srtt) +ℤ rtt)) 8)

-- The average and the deviation after a sample.
pub sample : ℤ → Rudp → Rudp
sample rtt r =
    if is_zero r.rx_rttval then record r { rx_srtt = rtt; rx_rttval = halve rtt } else record r {
      rx_rttval = smoothed_val r.rx_rttval r.rx_srtt rtt;
      rx_srtt = smoothed_srtt r.rx_srtt rtt;
    }

-- The timeout that the average and the deviation give, before it is bounded.
abbrev pub raw_rto : Rudp → ℕ
raw_rto r = add32 (to_uint32 r.rx_srtt) (max r.interval (mul32 (to_uint32 r.rx_rttval) 4))

pub set_rto : Rudp → Rudp
set_rto r = record r { rx_rto = bound r.rx_min_rto (raw_rto r) rto_max }

pub update_rto : ℤ → Rudp → Rudp
unfolding sample set_rto
update_rto rtt r = set_rto (sample rtt r)
