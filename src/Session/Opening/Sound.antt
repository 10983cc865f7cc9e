-- ===== src/Session/Opening/Sound.antt =====
-- newUDPSession of sess.go and the sizes of what it makes.
use rudp_go.Common.{ℕ, Bool, true, false, if◌then◌else◌, pos, arith, length-replicate}
use rudp_go.Rudp.{World, new_rudp}
use rudp_go.Rudp.Sized.{SizedAt}
use rudp_go.Rudp.Config.{reserve_bytes}
use rudp_go.Session.{crypt_header_size}
use rudp_go.Session.Sound.{Sound, AllShort}
use rudp_go.Session.Opening.{new_udp_session}

reserved-SizedAt :
    (conv : ℕ) (ciphered : Bool)
    → SizedAt 1400
        (reserve_bytes (pos (if ciphered then crypt_header_size else 0)) (new_rudp conv)).1
unfolding new_rudp reserve_bytes
reserved-SizedAt conv true = omega (arith, length-replicate {A = ℕ} 1400 0)
reserved-SizedAt conv false = omega (arith, length-replicate {A = ℕ} 1400 0)

pub new_udp_session-Sound :
    (conv : ℕ) (ciphered listens : Bool) (world : World)
    → AllShort 1400 world.packets
    → Sound 1400 (new_udp_session conv ciphered listens world)
unfolding new_udp_session
new_udp_session-Sound conv ciphered listens world short = record {
  pooled = omega arith;
  sized = reserved-SizedAt conv ciphered;
  packets = short;
  queued = tt;
  sent = tt;
}
