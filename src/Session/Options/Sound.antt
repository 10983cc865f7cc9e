-- ===== src/Session/Options/Sound.antt =====
-- The options of a session and its sizes.
use rudp_go.Common.{ℕ, refl, Bool, ℤ, Option}
use rudp_go.Rudp.{Rudp}
use rudp_go.Rudp.Sized.{SizedAt, SameSizes-SizedAt}
use rudp_go.Rudp.Config.Bounds.{wnd_size-Sized, no_delay-Sized}
use rudp_go.Session.{Session}
use rudp_go.Session.Sound.{Sound, same-Sound, notified_read, notified_write}
use rudp_go.Session.Options.{
  set_read_deadline, set_write_deadline, set_deadline, set_session_delays, set_window_size,
  set_write_delay, set_ack_no_delay, set_stream_mode,
}

module _ (mtu : ℕ) (s : Session) (v : Sound mtu s) where
  pub set_deadline-Sound : (t : Option ℕ) → Sound mtu (set_deadline t s)
  unfolding set_deadline
  set_deadline-Sound t =
      notified_write mtu _ (notified_read mtu _ (same-Sound mtu s _ refl refl refl refl v))

  pub set_read_deadline-Sound : (t : Option ℕ) → Sound mtu (set_read_deadline t s)
  unfolding set_read_deadline
  set_read_deadline-Sound t = notified_read mtu _ (same-Sound mtu s _ refl refl refl refl v)

  pub set_write_deadline-Sound : (t : Option ℕ) → Sound mtu (set_write_deadline t s)
  unfolding set_write_deadline
  set_write_deadline-Sound t = notified_write mtu _ (same-Sound mtu s _ refl refl refl refl v)

  -- Another RUDP of the same sizes.
  exchanged : (r : Rudp) → SizedAt mtu r → Sound mtu (record s { rudp = r })
  exchanged r h = record {
    pooled = v.pooled;
    sized = h;
    packets = v.packets;
    queued = v.queued;
    sent = v.sent;
  }

  pub set_session_delays-Sound :
      (nodelay interval resend nc : ℤ) → Sound mtu (set_session_delays nodelay interval resend nc s)
  unfolding set_session_delays
  set_session_delays-Sound nodelay interval resend nc =
      exchanged _ (no_delay-Sized mtu s.rudp v.sized nodelay interval resend nc)

  pub set_window_size-Sound : (sndwnd rcvwnd : ℤ) → Sound mtu (set_window_size sndwnd rcvwnd s)
  unfolding set_window_size
  set_window_size-Sound sndwnd rcvwnd =
      exchanged _ (wnd_size-Sized mtu s.rudp v.sized sndwnd rcvwnd)

  pub set_write_delay-Sound : (delay : Bool) → Sound mtu (set_write_delay delay s)
  unfolding set_write_delay
  set_write_delay-Sound delay = same-Sound mtu s _ refl refl refl refl v

  pub set_ack_no_delay-Sound : (nodelay : Bool) → Sound mtu (set_ack_no_delay nodelay s)
  unfolding set_ack_no_delay
  set_ack_no_delay-Sound nodelay = same-Sound mtu s _ refl refl refl refl v

  pub set_stream_mode-Sound : (enable : Bool) → Sound mtu (set_stream_mode enable s)
  unfolding set_stream_mode
  set_stream_mode-Sound enable = exchanged _ (
      SameSizes-SizedAt mtu
        (record {
          mtu = refl;
          mss = refl;
          reserved = refl;
          buffer = refl;
          snd_queue = refl;
          snd_buf = refl;
        })
        v.sized)
