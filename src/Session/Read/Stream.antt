-- ===== src/Session/Read/Stream.antt =====
-- `Read` of sess.go: messages become a stream.
use mathlib.Core.Path.{subst}
use rudp_go.Common.{
  ℕ, ◌≤◌, ◌<◌, ◌≡◌, refl, ap, sym, ◌∙◌, List, [], ◌∷◌, ◌++◌, length, take, drop, take-length,
  drop-length, Bool-cases, inl, inr, ltb, leb, if◌then◌else◌, arith, pos, Option, some, lt→not_==,
  true, false,
}
use rudp_go.Wire.{Segment}
use rudp_go.Rudp.Send.Fragments.{bytes_of}
use rudp_go.Rudp.Delivery.Messages.{IsMessage, first_frg, peek_size-message}
use rudp_go.Rudp.Delivery.RoundTrip.{receive-message}
use rudp_go.Session.{Session}
use rudp_go.Session.Read.{read_left, read_whole, read_part, read_message, try_read}

-- What the session has for a caller: what is left of a message, else the message `msg`.
abbrev pub available : Session → List Segment → List ℕ
available s msg = if ltb 0 (length s.buf_ptr) then s.buf_ptr else bytes_of msg

-- The first `room` bytes go to the caller, and the others are left; the queue keeps what is behind
-- a message that was taken.
pub record Reads (room : ℕ) (bytes : List ℕ) (queue : List Segment) (x : Option (List ℕ) × Session)
    : Type 0 where
  pub got : x.0 ≡ some (take room bytes)
  pub left : x.1.buf_ptr ≡ drop room bytes
  pub queued : x.1.rudp.rcv_queue ++ x.1.rudp.rcv_buf ≡ queue

pub read_left-Reads :
    (room : ℕ) (s : Session)
    → Reads room s.buf_ptr (s.rudp.rcv_queue ++ s.rudp.rcv_buf) (read_left room s)
unfolding read_left
read_left-Reads room s = record { got = refl; left = refl; queued = refl }

leb→le : (a b : ℕ) → leb a b ≡ true → a ≤ b
leb→le a b h = ground arith

nothing : (bytes : List ℕ) → ltb 0 (length bytes) ≡ false → bytes ≡ []
nothing [] h = refl
nothing (b ∷ bytes) h = absurd (ground arith)

read_message-Reads :
    (room : ℕ) (s : Session) (msg rest : List Segment)
    → IsMessage msg
    → s.rudp.rcv_queue ≡ msg ++ rest
    → first_frg msg < 255
    → first_frg msg < length (msg ++ rest)
    → 0 < length (bytes_of msg)
    → s.buf_ptr ≡ []
    → Reads room
        (bytes_of msg)
        (rest ++ s.rudp.rcv_buf)
        (read_message (pos (length (bytes_of msg))) room s)
unfolding read_message read_whole read_part
read_message-Reads room s msg rest h e small enough some_bytes empty =
    elim (Bool-cases (leb (length (bytes_of msg)) room)) [
      | inl whole ↦
          let d = receive-message room msg rest s.rudp h e small enough (leb→le _ _ whole) in
          rw (lt→not_== (length (bytes_of msg)) 0 some_bytes, whole)
            (record {
              got = rw d.0 (ap some (sym (take-length room (bytes_of msg) (leb→le _ _ whole))));
              left = empty ∙ sym (drop-length room (bytes_of msg) (leb→le _ _ whole));
              queued = d.1;
            })
      | inr part ↦
          let d =
            receive-message (length (bytes_of msg)) msg rest s.rudp h e small enough
              (omega arith) in
          rw (lt→not_== (length (bytes_of msg)) 0 some_bytes, part)
            (record { got = rw d.0 refl; left = rw d.0 refl; queued = d.1 })
    ]

-- `Read` with a message of at most 255 fragments and not without bytes at the front of the receive
-- queue: the caller gets the first `room` bytes of what is left of the message before, or of this
-- message if nothing is left; the other bytes of it are kept for the next call, in order; and the
-- queue goes on behind a message that was taken.
pub try_read_lem :
    (room : ℕ) (s : Session) (msg rest : List Segment)
    → IsMessage msg
    → s.rudp.rcv_queue ≡ msg ++ rest
    → first_frg msg < 255
    → first_frg msg < length (msg ++ rest)
    → 0 < length (bytes_of msg)
    → Reads room
        (available s msg)
        ((if ltb 0 (length s.buf_ptr) then s.rudp.rcv_queue else rest) ++ s.rudp.rcv_buf)
        (try_read room s)
unfolding try_read
try_read_lem room s msg rest h e small enough some_bytes =
    elim (Bool-cases (ltb 0 (length s.buf_ptr))) [
      | inl left ↦ rw left (read_left-Reads room s)
      | inr used ↦ rw used (
          subst
            (λ size. Reads room (bytes_of msg) (rest ++ s.rudp.rcv_buf) (read_message size room s))
            (sym (peek_size-message msg rest s.rudp h e small enough))
            (read_message-Reads room s msg rest h e small enough some_bytes
              (nothing s.buf_ptr used)))
    ]
