-- ===== src/Session/Read.antt =====
-- `Read` of sess.go: what is left of a message first, then the next message, else waiting.
pub mod Stream
pub mod Drain
pub mod Sound
use rudp_go.Common.{
  ℕ, List, [], ◌∷◌, length, take, drop, ltb, leb, ◌==◌, if◌then◌else◌, ℤ, pos, negsuc, Option, none,
  some, Bool, true, false, add64,
}
use rudp_go.Rudp.{Rudp, World}
use rudp_go.Rudp.Delivery.{peek_size, receive}
use rudp_go.Session.{Session}

abbrev pub count_read : ℕ → Session → Session
count_read n s = record s {
  world = record s.world {
    snmp = record s.world.snmp { bytes_received = add64 s.world.snmp.bytes_received n };
  };
}

-- What a round of the loop does under the lock: the bytes for the caller, or `none` if it waits.
unfoldable pub read_left : ℕ → Session → Option (List ℕ) × Session
read_left room s =
    let bytes = take room s.buf_ptr in
    (some bytes, count_read (length bytes) (record s { buf_ptr = drop room s.buf_ptr }))

unfoldable pub read_whole : (size room : ℕ) → Session → Option (List ℕ) × Session
read_whole size room s =
    let (reply, r) = receive room s.rudp in (some reply.1, count_read size (record s { rudp = r }))

-- The message goes to a buffer of its size, and what the caller has no room for stays there.
unfoldable pub read_part : (size room : ℕ) → Session → Option (List ℕ) × Session
read_part size room s =
    let (reply, r) = receive size s.rudp in
    let bytes = take room reply.1 in
    (some bytes, count_read (length bytes) (record s { rudp = r; buf_ptr = drop room reply.1 }))

unfoldable pub read_message : ℤ → ℕ → Session → Option (List ℕ) × Session
read_message (negsuc n) room s = (none, s)
read_message (pos size) room s =
    if size == 0
    then (none, s)
    else if leb size room
    then read_whole size room s
    else read_part size room s

unfoldable pub try_read : ℕ → Session → Option (List ℕ) × Session
try_read room s =
    if ltb 0 (length s.buf_ptr) then read_left room s else read_message (peek_size s.rudp) room s

-- What ends the waiting: an event, with the time and the state of the session as they are then; the
-- timer; an error of the socket; the end of the session.
pub data Wake : Type 0 where
  event : ℕ → Session → Wake
  timer : Wake
  socket_error : ℕ → Wake
  died : Wake

-- What `Read` returns; `waiting` is a call that no further wake has ended.
pub data Reply : Type 0 where
  got : List ℕ → Reply
  timed_out : Reply
  failed : ℕ → Reply
  closed_pipe : Reply
  waiting : Reply

pub is_late : ℕ → Option ℕ → Bool
is_late now none = false
is_late now (some ddl) = ltb ddl now

-- A round that has bytes returns them; one that has none looks at the deadline and then waits.
pub end_round : Option (List ℕ) × Session → ℕ → Reply × Session → Reply × Session
end_round (some bytes, s) now next = (got bytes, s)
end_round (none, s) now next = if is_late now s.read_ddl then (timed_out, s) else next

-- The loop of `Read`, over the wakes of the call. An event takes its token from the channel.
pub read : (room now : ℕ) → List Wake → Session → Reply × Session
read room now [] s = let x = try_read room s in end_round x now (waiting, x.1)
read room now (event later s' ∷ wakes) s =
    let next = read room later wakes (record s' { read_event = false }) in
    end_round (try_read room s) now next
read room now (timer ∷ wakes) s = let x = try_read room s in end_round x now (timed_out, x.1)
read room now (socket_error e ∷ wakes) s =
    let x = try_read room s in end_round x now (failed e, x.1)
read room now (died ∷ wakes) s = let x = try_read room s in end_round x now (closed_pipe, x.1)
