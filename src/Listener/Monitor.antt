-- ===== src/Listener/Monitor.antt =====
-- readloop.go and readloop_linux.go: the loops that read a listener's packets from its socket, as
-- those of a session.
pub mod Batches
use rudp_go.Common.{ℕ, List, [], ◌∷◌, Bool, if◌then◌else◌, Outcome, done, ◌>>=◌}
use rudp_go.Session.Loops.{
  Datagram, Arrival, arrived, read_fails, BatchArrival, arrived_batch, no_recvmmsg, batch_fails,
}
use rudp_go.Listener.{Listener, listener_input, listener_read_error}

pub default_monitor : (ℕ → ℕ) → List Arrival → Listener → Outcome Listener
default_monitor clock [] l = done l
default_monitor clock (arrived d ∷ answers) l =
    listener_input clock d.packet d.from l >>= default_monitor clock answers
default_monitor clock (read_fails err ∷ answers) l = listener_read_error err l

pub input_all : (ℕ → ℕ) → List Datagram → Listener → Outcome Listener
input_all clock [] l = done l
input_all clock (d ∷ ds) l = listener_input clock d.packet d.from l >>= input_all clock ds

pub batch_monitor : (ℕ → ℕ) → List BatchArrival → List Arrival → Listener → Outcome Listener
batch_monitor clock [] later l = done l
batch_monitor clock (arrived_batch ds ∷ bs) later l =
    input_all clock ds l >>= batch_monitor clock bs later
batch_monitor clock (no_recvmmsg ∷ bs) later l = default_monitor clock later l
batch_monitor clock (batch_fails err ∷ bs) later l = listener_read_error err l

-- `batched` says that `xconn` is not nil.
pub monitor : (ℕ → ℕ) → Bool → List BatchArrival → List Arrival → Listener → Outcome Listener
monitor clock batched bs later l =
    if batched then batch_monitor clock bs later l else default_monitor clock later l
