-- ===== src/Rudp/Rto/ReceiveSide.antt =====
-- updateRTO and the receiving side.
use rudp_go.Common.{ℤ, arith}
use rudp_go.Rudp.{Rudp}
use rudp_go.Rudp.Receiving.{Untouched}
use rudp_go.Rudp.Rto.{update_rto, sample, set_rto}

pub update_rto-Untouched : (rtt : ℤ) (r : Rudp) → Untouched r (update_rto rtt r)
unfolding update_rto sample set_rto
update_rto-Untouched rtt r = ground arith
