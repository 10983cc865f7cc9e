-- ===== src/Listener/Runs.antt =====
-- A listener at concrete packets and events.
use rudp_go.Common.{ℕ, ◌+◌, ◌≡◌, List, [], ◌∷◌, true, false, replicate, Returns, arith}
use rudp_go.Snmp.{new_snmp}
use rudp_go.Wire.{cmd_push}
use rudp_go.Rudp.{World}
use rudp_go.Session.Events.{timer_runs, reads, writes}
use rudp_go.Session.Loops.{BatchArrival, arrived_batch, batch_fails}
use rudp_go.Listener.Monitor.{monitor, default_monitor}
use rudp_go.Listener.Monitor.Batches.{singles, monitor_lem}
use rudp_go.Listener.{serve_conn, listener_input, session_came, listener_died}
use rudp_go.Listener.Adding.{Handled}
use rudp_go.Listener.Dispatch.{listener_input_lem}
use rudp_go.Listener.Events.{
  ListenerEvent, packet_read, session_used, session_closed, accept_called, read_failed,
  listener_closed, close_ended, Course, at_start, handle_events,
}
use rudp_go.Listener.Events.Courses.{IsClosing, IsStruck, Served}
use rudp_go.Listener.Events.Safety.{serve_conn-Served, handle_events_lem}

abbrev some_clock : ℕ → ℕ
some_clock k = 1000 + k

abbrev world : World
world = record { clock_reads = 0; packets = []; snmp = new_snmp }

-- conv 7, a push with the number 0 and two bytes of data
abbrev some_packet : List ℕ
some_packet =
    7 ∷ 0 ∷ 0 ∷ 0 ∷ cmd_push ∷ 0 ∷ 128 ∷ 0 ∷ 0 ∷ 0 ∷ 0 ∷ 0 ∷ 0 ∷ 0 ∷ 0 ∷ 0 ∷ 0 ∷ 0 ∷ 0 ∷ 0 ∷ 2 ∷ 0
    ∷ 0 ∷ 0 ∷ 65 ∷ 66 ∷ []

-- Another conv: it takes the place of the first session.
abbrev other_packet : List ℕ
other_packet = 8 ∷ 0 ∷ 0 ∷ 0 ∷ cmd_push ∷ replicate 19 0

-- A new listener, with no Close under way.
abbrev start : Course
start = at_start (serve_conn false true world)

listener_input_lem_example :
    Returns
      (listener_input some_clock some_packet 1 start.listener)
      (Handled (IsClosing start) (IsStruck start) 1 start.listener)
listener_input_lem_example =
    listener_input_lem some_clock some_packet 1 start.listener (omega arith)
      (serve_conn-Served false true world tt).steady

-- And another, which comes while the second session is being closed: the closeSession of that Close
-- takes its session out of the map, and it is alive.
abbrev third_packet : List ℕ
third_packet = 9 ∷ 0 ∷ 0 ∷ 0 ∷ cmd_push ∷ replicate 19 0

abbrev some_events : List ListenerEvent
some_events =
    packet_read some_packet 1
    ∷ accept_called session_came
    ∷ session_used 0 (reads 10)
    ∷ session_used 0 (writes ((9 ∷ []) ∷ []))
    ∷ packet_read other_packet 1
    ∷ packet_read some_packet 2
    ∷ session_closed 1
    ∷ packet_read third_packet 1
    ∷ close_ended 1
    ∷ session_used 2 timer_runs
    ∷ read_failed 4
    ∷ listener_closed
    ∷ accept_called listener_died
    ∷ []

handle_events_lem_example : Returns (handle_events some_clock some_events start) Served
handle_events_lem_example =
    handle_events_lem some_clock false true world some_events tt (omega arith)

abbrev some_batches : List BatchArrival
some_batches =
    arrived_batch
      (record { packet = some_packet; from = 1 } ∷ record { packet = other_packet; from = 2 } ∷ [])
    ∷ batch_fails 3
    ∷ []

monitor_lem_example :
    monitor some_clock true some_batches [] (serve_conn false true world)
    ≡ default_monitor some_clock (singles some_batches []) (serve_conn false true world)
monitor_lem_example = monitor_lem some_clock some_batches [] (serve_conn false true world)
