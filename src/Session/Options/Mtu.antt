-- ===== src/Session/Options/Mtu.antt =====
-- `SetMtu` of sess.go and the answer of the RUDP.
use rudp_go.Common.{false, ltb_ℤ, ℕ, ◌<◌, ◌≡◌, pos, true, arith}
use rudp_go.Rudp.{mtu_limit}
use rudp_go.Rudp.Config.Bounds.{set_mtu-refuses}
use rudp_go.Session.{Session}
use rudp_go.Session.Options.{set_session_mtu}

-- `SetMtu` of a session answers true for a size below 50, which its RUDP refuses: nothing changes.
pub set_session_mtu_lem : (m : ℕ) (s : Session) → m < 50 → set_session_mtu (pos m) s ≡ (true, s)
unfolding set_session_mtu
set_session_mtu_lem m s small =
    let fits : ltb_ℤ (pos mtu_limit) (pos m) ≡ false = ground arith in
    rw (fits, set_mtu-refuses m s.rudp small)
