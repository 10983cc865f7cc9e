-- ===== src/Rudp/Rto/SendSide.antt =====
-- updateRTO and the send side.
use rudp_go.Common.{ℤ, arith}
use rudp_go.Rudp.{Rudp}
use rudp_go.Rudp.Numbers.{Unmoved}
use rudp_go.Rudp.Rto.{update_rto, sample, set_rto}

pub update_rto-Unmoved : (rtt : ℤ) (r : Rudp) → Unmoved r (update_rto rtt r)
unfolding update_rto sample set_rto
update_rto-Unmoved rtt r = ground arith
