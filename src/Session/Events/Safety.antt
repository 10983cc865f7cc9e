-- ===== src/Session/Events/Safety.antt =====
-- Sequences of events on a session: panics, loops, and the sizes of packets.
use rudp_go.Common.{ℕ, List, [], ◌∷◌, All, Returns, Returns-bind}
use rudp_go.Session.{Session, update, close}
use rudp_go.Session.Sound.{Sound, update-Sound, packet_input-Sound, close-Sound}
use rudp_go.Session.Read.Sound.{try_read-Sound}
use rudp_go.Session.Write.{try_write}
use rudp_go.Session.Write.Sound.{try_write-Sound}
use rudp_go.Session.Options.Sound.{
  set_deadline-Sound, set_session_delays-Sound, set_window_size-Sound, set_stream_mode-Sound,
  set_write_delay-Sound, set_ack_no_delay-Sound,
}
use rudp_go.Session.Events.{
  sets_deadline, sets_delays, sets_windows, sets_stream_mode, sets_write_delay, sets_ack_no_delay,
  Event, timer_runs, packet_comes, reads, writes, closes, handle, handle_all, IsPossible,
}

module _ (clock : ℕ → ℕ) (mtu : ℕ) where
  pub handle-Sound :
      (e : Event) (s : Session)
      → IsPossible e
      → Sound mtu s
      → Returns (handle clock e s) (Sound mtu)
  unfolding handle
  handle-Sound timer_runs s p v =
      Returns-bind (update clock s) _ (λ x. Sound mtu x.1) _ (update-Sound clock mtu s v) λ x v'. v'
  handle-Sound (packet_comes packet) s p v = packet_input-Sound clock mtu packet s p v
  handle-Sound (reads room) s p v = try_read-Sound mtu room s v
  handle-Sound (writes buffers) s p v =
      Returns-bind (try_write clock buffers s) _ (λ x. Sound mtu x.1) _
        (try_write-Sound clock mtu buffers s v) λ x v'. v'
  handle-Sound (sets_deadline t) s p v = set_deadline-Sound mtu s v t
  handle-Sound (sets_delays nodelay interval resend nc) s p v =
      set_session_delays-Sound mtu s v nodelay interval resend nc
  handle-Sound (sets_windows sndwnd rcvwnd) s p v = set_window_size-Sound mtu s v sndwnd rcvwnd
  handle-Sound (sets_stream_mode enable) s p v = set_stream_mode-Sound mtu s v enable
  handle-Sound (sets_write_delay delay) s p v = set_write_delay-Sound mtu s v delay
  handle-Sound (sets_ack_no_delay nodelay) s p v = set_ack_no_delay-Sound mtu s v nodelay
  handle-Sound closes s p v =
      Returns-bind (close clock s) _ (λ x. Sound mtu x.1) _ (close-Sound clock mtu s v) λ x v'. v'

-- Whatever happens to a session with sound sizes and an MTU of at most 1500 bytes, in whatever order
-- (its timer, packets of at most 1500 bytes of any content, reads, writes of buffers of any length,
-- the options but SetMtu, Close): every handler returns, none panics or loops for ever, the sizes
-- stay sound, and every packet queued for the socket or handed to it is at most the MTU long, if
-- those before it were.
pub handle_all_lem :
    (clock : ℕ → ℕ) (mtu : ℕ) (events : List Event) (s : Session)
    → All IsPossible events
    → Sound mtu s
    → Returns (handle_all clock events s) (Sound mtu)
unfolding handle_all
handle_all_lem clock mtu [] s p v = v
handle_all_lem clock mtu (e ∷ events) s p v =
    Returns-bind (handle clock e s) (handle_all clock events) (Sound mtu) (Sound mtu)
      (handle-Sound clock mtu e s p.0 v) (λ s' v'. handle_all_lem clock mtu events s' p.1 v')
