-- ===== src/Session/Living.antt =====
-- Which calls of sess.go end a session: Close, and no other.
use rudp_go.Common.{
  ℕ, ◌≡◌, refl, sym, List, Bool, true, false, Bool-cases, inl, inr, if◌then◌else◌, ltb, leb, ◌==◌,
  ◌&&◌, ◌||◌, not, pos, negsuc, ℤ, ltb_ℤ, IfDone, IfDone-bind, IfDone-then, IfDone-if, ap, length,
}
use rudp_go.Wire.{overhead}
use rudp_go.Rudp.{Rudp, World}
use rudp_go.Rudp.Delivery.{peek_size}
use rudp_go.Rudp.Flush.{flush}
use rudp_go.Rudp.Input.{input}
use rudp_go.Session.{
  Session, take_packets, after_call, uncork, notify_read_event, notify_write_event, has_send_room,
  flush_session, update, rudp_input, packet_input, close, crypt_header_size,
}
use rudp_go.Session.Read.{try_read, read_left, read_whole, read_part, read_message}
use rudp_go.Session.Write.{try_write, send_buffers, flush_written}
use rudp_go.Session.Options.{
  set_deadline, set_session_delays, set_window_size, set_stream_mode, set_write_delay,
  set_ack_no_delay,
}
use rudp_go.Session.Events.{
  Event, timer_runs, packet_comes, reads, writes, sets_deadline, sets_delays, sets_windows,
  sets_stream_mode, sets_write_delay, sets_ack_no_delay, closes, handle,
}

abbrev pub SameLife : Session → Session → Type 0
SameLife s s' = s'.has_died ≡ s.has_died

-- A change that depends on a test.
either_life :
    (b : Bool) (s x y : Session) → SameLife s x → SameLife s y → SameLife s (if b then x else y)
either_life true s x y h k = h
either_life false s x y h k = k

after_call-life : (r : Rudp) (w : World) (s : Session) → IfDone (after_call r w s) (SameLife s)
unfolding after_call
after_call-life r w s =
    IfDone-then (take_packets s.header_size w.packets s.txqueue) _ (SameLife s) λ queue. refl

flush_session-life :
    (clock : ℕ → ℕ) (s : Session) → IfDone (flush_session clock s) (λ x. SameLife s x.1)
unfolding flush_session
flush_session-life clock s =
    IfDone-then (flush clock false s.rudp s.world) _ (λ x. SameLife s x.1)
      λ x. IfDone-bind (after_call x.1 x.2 s) _ (SameLife s) _ (after_call-life x.1 x.2 s) λ s' e. e

notified_life :
    (b : Bool) (s x : Session) → SameLife s x → SameLife s (if b then notify_write_event x else x)
unfolding notify_write_event
notified_life true s x h = h
notified_life false s x h = h

read_notified_life :
    (b : Bool) (s x : Session) → SameLife s x → SameLife s (if b then notify_read_event x else x)
unfolding notify_read_event
read_notified_life true s x h = h
read_notified_life false s x h = h

pub rudp_input-life :
    (clock : ℕ → ℕ) (packet : List ℕ) (s : Session)
    → IfDone (rudp_input clock packet s) (SameLife s)
unfolding rudp_input uncork
rudp_input-life clock packet s =
    IfDone-then (input clock packet true s.ack_no_delay s.rudp s.world) _ (SameLife s) (λ x.
      IfDone-bind (after_call x.1 x.2 s) _ (SameLife s) (SameLife s) (after_call-life x.1 x.2 s)
        (λ s1 e.
          notified_life (has_send_room x.1) s _
            (read_notified_life (ltb_ℤ (pos 0) (peek_size x.1)) s s1 e)))

update-life : (clock : ℕ → ℕ) (s : Session) → IfDone (update clock s) (λ x. SameLife s x.1)
unfolding update uncork
update-life clock s =
    IfDone-if s.has_died _ _ (λ x. SameLife s x.1) (λ d. refl)
      (λ e.
        IfDone-bind (flush_session clock s) _ (λ x. SameLife s x.1) (λ x. SameLife s x.1)
          (flush_session-life clock s) (λ x h. notified_life (has_send_room x.1.rudp) s x.1 h))

-- What Close makes of a session, and what it answers.
abbrev pub HasClosed : Session → Bool × Session → Type 0
HasClosed s x = (x.1.has_died ≡ true) × (x.0 ≡ not s.has_died)

pub close-life : (clock : ℕ → ℕ) (s : Session) → IfDone (close clock s) (HasClosed s)
unfolding close uncork
close-life clock s =
    IfDone-if s.has_died _ _ (HasClosed s) (λ d. (d, sym (ap not d)))
      (λ e.
        IfDone-bind (flush_session clock _) _ (λ x. x.1.has_died ≡ true) (HasClosed s)
          (flush_session-life clock _) (λ x h. (h, sym (ap not e))))

packet_input-life :
    (clock : ℕ → ℕ) (packet : List ℕ) (s : Session)
    → IfDone (packet_input clock packet s) (SameLife s)
unfolding packet_input
packet_input-life clock packet s =
    IfDone-if
      ((s.header_size == 0 || leb (length packet) crypt_header_size)
        && leb overhead (length packet))
      _ _ (SameLife s) (λ d. rudp_input-life clock packet s) (λ e. refl)

read_message-life : (size : ℤ) (room : ℕ) (s : Session) → SameLife s (read_message size room s).1
unfolding read_message read_whole read_part
read_message-life (negsuc n) room s = refl
read_message-life (pos size) room s = elim (Bool-cases (size == 0)) [
  | inl e ↦ rw e refl
  | inr e ↦ elim (Bool-cases (leb size room)) [
    | inl e' ↦ rw (e, e') refl
    | inr e' ↦ rw (e, e') refl
  ]
]

try_read-life : (room : ℕ) (s : Session) → SameLife s (try_read room s).1
unfolding try_read read_left
try_read-life room s = elim (Bool-cases (ltb 0 (length s.buf_ptr))) [
  | inl e ↦ rw e refl
  | inr e ↦ rw e (read_message-life (peek_size s.rudp) room s)
]

flush_written-life : (clock : ℕ → ℕ) (s : Session) → IfDone (flush_written clock s) (SameLife s)
unfolding flush_written uncork
flush_written-life clock s =
    IfDone-if (not (has_send_room s.rudp) || not s.write_delay) _ _ (SameLife s)
      (λ d.
        IfDone-bind (flush_session clock s) _ (λ x. SameLife s x.1) (SameLife s)
          (flush_session-life clock s) (λ x h. h))
      (λ e. refl)

try_write-life :
    (clock : ℕ → ℕ) (buffers : List (List ℕ)) (s : Session)
    → IfDone (try_write clock buffers s) (λ x. SameLife s x.1)
unfolding try_write
try_write-life clock buffers s =
    IfDone-if (has_send_room s.rudp) _ _ (λ x. SameLife s x.1)
      (λ d.
        IfDone-then (send_buffers buffers 0 s.rudp) _ (λ x. SameLife s x.1)
          (λ x.
            IfDone-bind (flush_written clock (record s { rudp = x.1 })) _ (SameLife s)
              (λ y. SameLife s y.1) (flush_written-life clock (record s { rudp = x.1 }))
              (λ y h. h)))
      (λ e. refl)

-- An event other than Close.
abbrev pub IsUse : Event → Type 0
IsUse closes = ⊥
IsUse _ = Unit {0}

pub handle-life :
    (clock : ℕ → ℕ) (e : Event) (s : Session) → IsUse e → IfDone (handle clock e s) (SameLife s)
unfolding handle set_deadline notify_read_event notify_write_event set_session_delays
    set_window_size set_stream_mode set_write_delay set_ack_no_delay
handle-life clock timer_runs s u =
    IfDone-bind (update clock s) _ (λ x. SameLife s x.1) (SameLife s) (update-life clock s)
      (λ x h. h)
handle-life clock (packet_comes packet) s u = packet_input-life clock packet s
handle-life clock (reads room) s u = try_read-life room s
handle-life clock (writes buffers) s u =
    IfDone-bind (try_write clock buffers s) _ (λ x. SameLife s x.1) (SameLife s)
      (try_write-life clock buffers s) (λ x h. h)
handle-life clock (sets_deadline t) s u = refl
handle-life clock (sets_delays nodelay interval resend nc) s u = refl
handle-life clock (sets_windows sndwnd rcvwnd) s u = refl
handle-life clock (sets_stream_mode enable) s u = refl
handle-life clock (sets_write_delay delay) s u = refl
handle-life clock (sets_ack_no_delay nodelay) s u = refl
handle-life clock closes s u = elim u [ ]
