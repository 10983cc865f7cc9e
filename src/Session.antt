-- ===== src/Session.antt =====
-- The session of sess.go: the state of UDPSession that its calls share, the notifications, the
-- queue of packets for the socket, update, input and Close. One call under the lock is one
-- function.
pub mod Read
pub mod Write
pub mod Options
pub mod Events
pub mod Opening
pub mod Living
pub mod Tx
pub mod Loops
pub mod Sound
mod Runs
use rudp_go.Common.{
  ℕ, suc, ◌+◌, ◌-◌, ◌^◌, List, [], ◌∷◌, ◌++◌, Bool, true, false, ◌&&◌, ◌||◌, not, length, ltb, leb,
  ◌==◌, if◌then◌else◌, Outcome, done, ◌>>=◌, ℤ, pos, negsuc, ltb_ℤ, Option, none, some, add64,
}
use rudp_go.Snmp.{Snmp}
use rudp_go.Wire.{overhead}
use rudp_go.Rudp.{Rudp, World, wait_snd, new_segment}
use rudp_go.Rudp.Delivery.{peek_size}
use rudp_go.Rudp.Flush.{flush}
use rudp_go.Rudp.Rto.{is_zero}
use rudp_go.Rudp.Input.{input}
use rudp_go.Rudp.Config.{release_tx}

-- `world` holds the clock's readings, the packets that the callback has yet to take, and the
-- counters. An event channel has room for one token. `handed` is what `tx` has been given, oldest
-- first; deadlines are times on one clock, `none` for the zero time; an error of the socket is a
-- number, and stored once its channel is closed.
pub record Session : Type 0 where
  pub rudp : Rudp
  pub world : World
  pub buf_ptr : List ℕ
  pub read_ddl : Option ℕ
  pub write_ddl : Option ℕ
  pub header_size : ℕ
  pub ack_no_delay : Bool
  pub write_delay : Bool
  pub has_died : Bool
  pub read_event : Bool
  pub write_event : Bool
  pub txqueue : List (List ℕ)
  pub handed : List (List ℕ)
  pub socket_read_error : Option ℕ
  pub socket_write_error : Option ℕ

abbrev pub crypt_header_size : ℕ
crypt_header_size = 20

pub notify_read_event : Session → Session
notify_read_event s = record s { read_event = true }

pub notify_write_event : Session → Session
notify_write_event s = record s { write_event = true }

-- Only the first error is kept.
abbrev pub first_error : ℕ → Option ℕ → Option ℕ
first_error err none = some err
first_error err (some e) = some e

unfoldable pub notify_read_error : ℕ → Session → Session
notify_read_error err s = record s { socket_read_error = first_error err s.socket_read_error }

abbrev pub notify_write_error : ℕ → Session → Session
notify_write_error err s = record s { socket_write_error = first_error err s.socket_write_error }

-- `output`: the packet, copied to a pooled buffer, at the end of the queue; a packet longer than
-- the buffer panics.
pub output : List ℕ → List (List ℕ) → Outcome (List (List ℕ))
output buf txqueue = do bytes ← new_segment buf; done (txqueue ++ bytes ∷ [])

-- The callback given to NewRudp, on each packet in turn: those that are not too short go to
-- `output`.
pub take_packets : ℕ → List (List ℕ) → List (List ℕ) → Outcome (List (List ℕ))
unfolding output
take_packets header_size [] txqueue = done txqueue
take_packets header_size (p ∷ packets) txqueue = do
  txqueue ← (if leb (overhead + header_size) (length p) then output p txqueue else done txqueue)
  take_packets header_size packets txqueue

-- The state after a call on the RUDP, with the callback's work done.
pub after_call : Rudp → World → Session → Outcome Session
after_call r w s = do
  txqueue ← take_packets s.header_size w.packets s.txqueue
  done (record s { rudp = r; world = record w { packets = [] }; txqueue = txqueue })

-- All queued packets go to `tx`.
pub uncork : Session → Session
uncork s = record s { txqueue = []; handed = s.handed ++ s.txqueue }

-- Both windows have room for more than what waits.
pub has_send_room : Rudp → Bool
has_send_room r = ltb (wait_snd r) r.snd_wnd && ltb (wait_snd r) r.rmt_wnd

-- `rudp.flush(false)` on the session's RUDP: its result, and the state.
pub flush_session : (ℕ → ℕ) → Session → Outcome (ℕ × Session)
flush_session clock s = do
  (next, r, w) ← flush clock false s.rudp s.world
  s' ← after_call r w s
  done (next, s')

-- The result is the time to the next call, in milliseconds; a dead session is not called again.
pub update : (ℕ → ℕ) → Session → Outcome (Option ℕ × Session)
update clock s = if s.has_died then done (none, s) else (do
  (next, s) ← flush_session clock s
  let s' = if has_send_room s.rudp then notify_write_event s else s
  done (Option.some next, uncork s'))

abbrev pub count_input : Bool → ℕ → Snmp → Snmp
count_input failed bytes c = record c {
  in_pkts = add64 c.in_pkts 1;
  in_bytes = add64 c.in_bytes bytes;
  rudp_in_errors = (if failed then add64 c.rudp_in_errors 1 else c.rudp_in_errors);
}

pub rudp_input : (ℕ → ℕ) → List ℕ → Session → Outcome Session
rudp_input clock packet s = do
  (code, r, w) ← input clock packet true s.ack_no_delay s.rudp s.world
  let failed = not (is_zero code)
  s1 ← after_call r w s
  let s2 = if ltb_ℤ (pos 0) (peek_size r) then notify_read_event s1 else s1
  let s3 = if has_send_room r then notify_write_event s2 else s2
  let s4 = uncork s3
  done (record s4 {
    world = record s4.world { snmp = count_input failed (length packet) s4.world.snmp };
  })

-- A session with a cipher has room for its header reserved. Decryption is still to be written in
-- the source, which drops every packet longer than that header.
pub packet_input : (ℕ → ℕ) → List ℕ → Session → Outcome Session
packet_input clock packet s =
    let handled = rudp_input clock packet s in
    let decrypted = s.header_size == 0 || leb (length packet) crypt_header_size in
    if decrypted && leb overhead (length packet) then handled else done s

abbrev pub count_close : Snmp → Snmp
count_close c = record c { curr_estab = add64 c.curr_estab (2 ^ 64 - 1) }

-- The result is false for a session that is closed already. What is left to do for the listener
-- or the socket is theirs.
pub close : (ℕ → ℕ) → Session → Outcome (Bool × Session)
close clock s = if s.has_died then done (false, s) else (do
  let s1 : Session = record s {
    has_died = true;
    world = record s.world { snmp = count_close s.world.snmp };
  }
  (next, s2) ← flush_session clock s1
  let s3 = uncork s2
  done (true, record s3 { rudp = release_tx s3.rudp }))
