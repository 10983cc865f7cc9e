-- ===== src/Session/Events.antt =====
-- What happens to a session, in any order: its timer (update), a packet (packetInput), a round of
-- Read or WriteBuffers under the lock, the options but SetMtu, and Close, of sess.go.
pub mod Safety
use rudp_go.Common.{ℤ, Bool, Option, ℕ, ◌≤◌, List, [], ◌∷◌, length, Outcome, done, ◌>>=◌}
use rudp_go.Rudp.{mtu_limit}
use rudp_go.Session.{Session, update, packet_input, close}
use rudp_go.Session.Read.{try_read}
use rudp_go.Session.Write.{try_write}
use rudp_go.Session.Options.{
  set_deadline, set_session_delays, set_window_size, set_stream_mode, set_write_delay,
  set_ack_no_delay,
}

pub data Event : Type 0 where
  timer_runs : Event
  packet_comes : List ℕ → Event
  reads : ℕ → Event
  writes : List (List ℕ) → Event
  sets_deadline : Option ℕ → Event
  sets_delays : ℤ → ℤ → ℤ → ℤ → Event
  sets_windows : ℤ → ℤ → Event
  sets_stream_mode : Bool → Event
  sets_write_delay : Bool → Event
  sets_ack_no_delay : Bool → Event
  closes : Event

unfoldable pub handle : (ℕ → ℕ) → Event → Session → Outcome Session
handle clock timer_runs s = do x ← update clock s; done x.1
handle clock (packet_comes packet) s = packet_input clock packet s
handle clock (reads room) s = done (try_read room s).1
handle clock (writes buffers) s = do x ← try_write clock buffers s; done x.1
handle clock (sets_deadline t) s = done (set_deadline t s)
handle clock (sets_delays nodelay interval resend nc) s =
    done (set_session_delays nodelay interval resend nc s)
handle clock (sets_windows sndwnd rcvwnd) s = done (set_window_size sndwnd rcvwnd s)
handle clock (sets_stream_mode enable) s = done (set_stream_mode enable s)
handle clock (sets_write_delay delay) s = done (set_write_delay delay s)
handle clock (sets_ack_no_delay nodelay) s = done (set_ack_no_delay nodelay s)
handle clock closes s = do x ← close clock s; done x.1

pub handle_all : (ℕ → ℕ) → List Event → Session → Outcome Session
handle_all clock [] s = done s
handle_all clock (e ∷ events) s = do s' ← handle clock e s; handle_all clock events s'

-- A socket's read buffer bounds a packet.
abbrev pub IsPossible : Event → Type 0
IsPossible (packet_comes packet) = length packet ≤ mtu_limit
IsPossible _ = Unit {0}
