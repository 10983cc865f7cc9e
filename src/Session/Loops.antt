-- ===== src/Session/Loops.antt =====
-- readloop.go and readloop_linux.go: the loops that read a session's packets from its socket. What
-- the socket answers, call after call, is a list; at its end the loop still waits.
pub mod Batches
use rudp_go.Common.{
  ℕ, List, [], ◌∷◌, Bool, true, false, Option, none, some, ◌==◌, if◌then◌else◌, Outcome, done,
  ◌>>=◌, add64,
}
use rudp_go.Session.{Session, packet_input, notify_read_error}

-- A packet and the address it comes from, as a number in place of the string.
pub record Datagram : Type 0 where
  pub packet : List ℕ
  pub from : ℕ

pub data Arrival : Type 0 where
  arrived : Datagram → Arrival
  read_fails : (err : ℕ) → Arrival

-- `no_recvmmsg` is the error of a kernel without that system call.
pub data BatchArrival : Type 0 where
  arrived_batch : List Datagram → BatchArrival
  no_recvmmsg : BatchArrival
  batch_fails : (err : ℕ) → BatchArrival

abbrev pub count_in_error : Session → Session
count_in_error s = record s {
  world = record s.world { snmp = record s.world.snmp { in_errs = add64 s.world.snmp.in_errs 1 } };
}

-- The first packet's address is the only one that later packets may have. `src` is `none` for "".
abbrev pub take_datagram : (ℕ → ℕ) → Datagram → Option ℕ × Session → Outcome (Option ℕ × Session)
take_datagram clock d (none, s) = do s' ← packet_input clock d.packet s; done (some d.from, s')
take_datagram clock d (some src, s) =
    let accepted = packet_input clock d.packet s >>= λ s'. done (some src, s') in
    if src == d.from then accepted else done (some src, count_in_error s)

pub take_datagrams : (ℕ → ℕ) → List Datagram → Option ℕ × Session → Outcome (Option ℕ × Session)
take_datagrams clock [] x = done x
take_datagrams clock (d ∷ ds) x = take_datagram clock d x >>= take_datagrams clock ds

pub default_loop_from : (ℕ → ℕ) → List Arrival → Option ℕ × Session → Outcome Session
default_loop_from clock [] x = done x.1
default_loop_from clock (arrived d ∷ answers) x =
    take_datagram clock d x >>= default_loop_from clock answers
default_loop_from clock (read_fails err ∷ answers) x = done (notify_read_error err x.1)

pub default_read_loop : (ℕ → ℕ) → List Arrival → Session → Outcome Session
default_read_loop clock answers s = default_loop_from clock answers (none, s)

-- With no batches, the loop goes over to the other one, which gets the answers `later`.
pub batch_loop_from :
    (ℕ → ℕ) → List BatchArrival → List Arrival → Option ℕ × Session → Outcome Session
batch_loop_from clock [] later x = done x.1
batch_loop_from clock (arrived_batch ds ∷ bs) later x =
    take_datagrams clock ds x >>= batch_loop_from clock bs later
batch_loop_from clock (no_recvmmsg ∷ bs) later x = default_read_loop clock later x.1
batch_loop_from clock (batch_fails err ∷ bs) later x = done (notify_read_error err x.1)

-- `batched` says that `xconn` is not nil.
pub read_loop : (ℕ → ℕ) → Bool → List BatchArrival → List Arrival → Session → Outcome Session
read_loop clock batched bs later s =
    if batched then batch_loop_from clock bs later (none, s) else default_read_loop clock later s
