-- ===== src/Session/Runs.antt =====
-- Sessions at concrete states.
use rudp_go.Common.{
  true, ℕ, ◌+◌, ◌≡◌, refl, List, [], ◌∷◌, ◌++◌, false, none, Returns, arith, replicate, length,
}
use rudp_go.Wire.{Segment, zero_segment, cmd_push}
use rudp_go.Rudp.{new_rudp}
use rudp_go.Rudp.Sized.{new_rudp-Sized}
use rudp_go.Snmp.{new_snmp}
use rudp_go.Session.{Session}
use rudp_go.Session.Sound.{Sound}
use rudp_go.Session.Events.{
  Event, writes, timer_runs, sets_stream_mode, packet_comes, reads, closes, handle_all,
}
use rudp_go.Session.Events.Safety.{handle_all_lem}
use rudp_go.Session.Read.{try_read}
use rudp_go.Session.Read.Stream.{Reads, try_read_lem}
use rudp_go.Session.Read.Drain.{Took, drain, drain_lem}
use rudp_go.Session.Write.{send_buffers}
use rudp_go.Session.Read.{Wake, event}
use rudp_go.Session.Write.Waiting.{write_buffers}
use rudp_go.Session.Write.Waiting.Counted.{Answered, write_buffers_lem}
use rudp_go.Session.Write.Pieces.{joined, Wrote, send_buffers_lem}

abbrev piece : ℕ → ℕ → List ℕ → Segment
piece sn frg bytes = record zero_segment {
  conv = 7;
  cmd = cmd_push;
  sn = sn;
  frg = frg;
  payload = bytes;
}

abbrev message : List Segment
message = piece 0 1 (1 ∷ 2 ∷ 3 ∷ []) ∷ piece 1 0 (4 ∷ 5 ∷ []) ∷ []

abbrev next_message : List Segment
next_message = piece 2 0 (6 ∷ []) ∷ []

-- Two messages wait for a reader.
abbrev session : Session
session = record {
  rudp = record (new_rudp 7) { rcv_queue = message ++ next_message; rcv_nxt = 3 };
  world = record { clock_reads = 0; packets = []; snmp = new_snmp };
  buf_ptr = [];
  read_ddl = none;
  write_ddl = none;
  header_size = 0;
  ack_no_delay = false;
  write_delay = false;
  has_died = false;
  read_event = false;
  write_event = false;
  txqueue = [];
  handed = [];
  socket_read_error = none;
  socket_write_error = none;
}

try_read_lem_example : Reads 2 (1 ∷ 2 ∷ 3 ∷ 4 ∷ 5 ∷ []) (next_message ++ []) (try_read 2 session)
unfolding new_rudp
try_read_lem_example =
    try_read_lem 2 session message next_message (omega arith) refl (omega arith) (omega arith)
      (omega arith)

drain_lem_example : Took 5 (1 ∷ 2 ∷ 3 ∷ 4 ∷ 5 ∷ []) (drain (2 ∷ 2 ∷ 1 ∷ []) session)
unfolding new_rudp
drain_lem_example =
    drain_lem 2 (2 ∷ 1 ∷ []) session message next_message (omega arith) (omega arith) (omega arith)
      refl (omega arith) refl (omega arith) (omega arith)

-- A buffer of three pieces, an empty one, and a short one.
abbrev three_buffers : List (List ℕ)
three_buffers = replicate 3000 7 ∷ [] ∷ (1 ∷ 2 ∷ []) ∷ []

send_buffers_lem_example :
    Returns (send_buffers three_buffers 0 (new_rudp 7)) (λ x.
      (x.0 ≡ 0 + length (joined three_buffers)) × Wrote (new_rudp 7) (joined three_buffers) x.1)
unfolding new_rudp
send_buffers_lem_example = send_buffers_lem three_buffers 0 (new_rudp 7) (new_rudp-Sized 7) refl

session-Sound : Sound 1400 session
unfolding new_rudp
session-Sound =
    let v = new_rudp-Sized 7 in
    record {
      pooled = omega arith;
      sized = (
        record {
          room = v.room;
          some_data = v.some_data;
          pooled = v.pooled;
          stored = v.stored;
          queued = v.queued;
          sent = v.sent;
        },
        refl,
      );
      packets = tt;
      queued = tt;
      sent = tt;
    }

-- A write, the timer, a packet of garbage, a read, and the end, twice.
abbrev some_events : List Event
some_events =
    writes three_buffers
    ∷ sets_stream_mode true
    ∷ timer_runs
    ∷ packet_comes (replicate 40 255)
    ∷ reads 2
    ∷ closes
    ∷ closes
    ∷ []

abbrev some_clock : ℕ → ℕ
some_clock k = 1000 + k

handle_all_lem_example : Returns (handle_all some_clock some_events session) (Sound 1400)
handle_all_lem_example =
    handle_all_lem some_clock 1400 some_events session (omega arith) session-Sound

-- The peer has no room: the call waits, until an event finds room.
abbrev full_session : Session
full_session = record session { rudp = record session.rudp { rmt_wnd = 0 } }

full_session-Sound : Sound 1400 full_session
unfolding new_rudp
full_session-Sound =
    let v = session-Sound in
    record {
      pooled = omega arith;
      sized = (
        record {
          room = v.sized.0.room;
          some_data = v.sized.0.some_data;
          pooled = v.sized.0.pooled;
          stored = v.sized.0.stored;
          queued = v.sized.0.queued;
          sent = v.sized.0.sent;
        },
        v.sized.1,
      );
      packets = tt;
      queued = tt;
      sent = tt;
    }

abbrev some_wakes : List Wake
some_wakes = event 5 full_session ∷ event 9 session ∷ []

write_buffers_lem_example :
    Returns
      (write_buffers some_clock true three_buffers 1 some_wakes full_session)
      (Answered 1400 three_buffers)
write_buffers_lem_example =
    write_buffers_lem some_clock 1400 true three_buffers 1 some_wakes full_session
      full_session-Sound (full_session-Sound, (session-Sound, tt))
