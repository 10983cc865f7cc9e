-- ===== src/Session/Options.antt =====
-- The options of a session in sess.go: deadlines, windows, timing, stream mode and delays.
pub mod Sound
pub mod Mtu
use rudp_go.Common.{ℕ, Bool, true, false, ltb, if◌then◌else◌, ℤ, pos, negsuc, ltb_ℤ, Option}
use rudp_go.Rudp.{Rudp, mtu_limit}
use rudp_go.Rudp.Config.{no_delay, wnd_size, set_mtu}
use rudp_go.Session.{Session, notify_read_event, notify_write_event}

-- A deadline wakes the calls that wait, so that they see it.
pub set_read_deadline : Option ℕ → Session → Session
set_read_deadline t s = notify_read_event (record s { read_ddl = t })

pub set_write_deadline : Option ℕ → Session → Session
set_write_deadline t s = notify_write_event (record s { write_ddl = t })

unfoldable pub set_deadline : Option ℕ → Session → Session
set_deadline t s = notify_write_event (notify_read_event (record s { read_ddl = t; write_ddl = t }))

unfoldable pub set_session_delays : ℤ → ℤ → ℤ → ℤ → Session → Session
set_session_delays nodelay interval resend nc s = record s {
  rudp = no_delay nodelay interval resend nc s.rudp;
}

unfoldable pub set_window_size : ℤ → ℤ → Session → Session
set_window_size sndwnd rcvwnd s = record s { rudp = wnd_size sndwnd rcvwnd s.rudp }

unfoldable pub set_write_delay : Bool → Session → Session
set_write_delay delay s = record s { write_delay = delay }

unfoldable pub set_ack_no_delay : Bool → Session → Session
set_ack_no_delay nodelay s = record s { ack_no_delay = nodelay }

unfoldable pub set_stream_mode : Bool → Session → Session
set_stream_mode enable s = record s { rudp = record s.rudp { stream = (if enable then 1 else 0) } }

-- The result of the RUDP is not looked at.
pub set_session_mtu : ℤ → Session → Bool × Session
set_session_mtu mtu s =
    if ltb_ℤ (pos mtu_limit) mtu
    then (false, s)
    else (let (code, r) = set_mtu mtu s.rudp in (true, record s { rudp = r }))
