-- ===== src/Session/Write.antt =====
-- `WriteBuffers` of sess.go: buffers become messages of at most mss bytes, if the windows have room.
pub mod Pieces
pub mod Sound
pub mod Waiting
use rudp_go.Common.{
  ℕ, zero, suc, ◌+◌, List, [], ◌∷◌, length, take, drop, ltb, leb, ◌==◌, if◌then◌else◌, ℤ, Option,
  none, some, Bool, true, false, ◌||◌, not, add64, Outcome, done, out_of_fuel, ◌>>=◌,
}
use rudp_go.Rudp.{Rudp, World}
use rudp_go.Rudp.Send.{send}
use rudp_go.Session.{Session, has_send_room, flush_session, uncork}

-- The inner loop, which cuts a buffer to pieces; the results of `Send` are not looked at. The fuel
-- is the length of the buffer.
pub send_pieces : ℕ → List ℕ → Rudp → Outcome Rudp
send_pieces zero buf r =
    let last = (send r buf >>= λ x. done x.1) in
    if leb (length buf) r.mss then last else out_of_fuel
send_pieces (suc fuel) buf r =
    let last = (send r buf >>= λ x. done x.1) in
    let more = (send r (take r.mss buf) >>= λ x. send_pieces fuel (drop r.mss buf) x.1) in
    if leb (length buf) r.mss then last else more

-- The loop over the buffers; `n` counts their bytes.
pub send_buffers : List (List ℕ) → ℕ → Rudp → Outcome (ℕ × Rudp)
send_buffers [] n r = done (n, r)
send_buffers (buf ∷ buffers) n r = do
  r' ← send_pieces (length buf) buf r
  send_buffers buffers (n + length buf) r'

abbrev pub count_write : ℕ → Session → Session
count_write n s = record s {
  world = record s.world {
    snmp = record s.world.snmp { bytes_sent = add64 s.world.snmp.bytes_sent n };
  };
}

-- A flush at once, unless the session delays it and the windows have room left.
unfoldable pub flush_written : (ℕ → ℕ) → Session → Outcome Session
flush_written clock s =
    let flushed = (flush_session clock s >>= λ x. done (uncork x.1)) in
    if not (has_send_room s.rudp) || not s.write_delay then flushed else done s

-- What a round of the loop does under the lock: the bytes taken, or `none` if it waits.
unfoldable pub try_write : (ℕ → ℕ) → List (List ℕ) → Session → Outcome (Option ℕ × Session)
try_write clock buffers s =
    let written = (do
      (n, r) ← send_buffers buffers 0 s.rudp
      s' ← flush_written clock (record s { rudp = r })
      done (some n, count_write n s')) in
    if has_send_room s.rudp then written else done (none, s)
