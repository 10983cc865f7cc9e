-- ===== src/Session/Tx.antt =====
-- tx.go and tx_linux.go: the packets of a session go to the socket, one by one or in batches. The
-- socket is a parameter: what it answers to each call, by the number of the call.
pub mod OneByOne
pub mod Batches
pub mod Fallback
mod Runs
use rudp_go.Common.{
  ℕ, zero, suc, ◌+◌, List, [], ◌∷◌, ◌++◌, length, take, drop, Bool, true, false, ◌||◌, not, ltb,
  leb, if◌then◌else◌, Outcome, done, panic, out_of_fuel, ◌>>=◌, index, add64,
}
use rudp_go.Snmp.{Snmp}
use rudp_go.Session.{Session, notify_write_error}

pub data Write : Type 0 where
  wrote : (bytes : ℕ) → Write
  write_failed : (err : ℕ) → Write

-- `no_sendmmsg` is the error of a kernel without that system call.
pub data BatchWrite : Type 0 where
  wrote_batch : (packets : ℕ) → BatchWrite
  no_sendmmsg : BatchWrite
  batch_failed : (err : ℕ) → BatchWrite

pub record Socket : Type 0 where
  pub write_to : ℕ → List ℕ → Write
  pub write_batch : ℕ → List (List ℕ) → BatchWrite

-- `batched` says that `xconn` is not nil, `batch_error` that `xconnWriteError` is not. `written`
-- is what the socket has taken, oldest first.
pub record Sender : Type 0 where
  pub session : Session
  pub batched : Bool
  pub batch_error : Bool
  pub calls : ℕ
  pub written : List (List ℕ)

abbrev pub add_out : ℕ → ℕ → Snmp → Snmp
add_out pkts bytes c = record c {
  out_pkts = add64 c.out_pkts pkts;
  out_bytes = add64 c.out_bytes bytes;
}

abbrev pub counted : ℕ → ℕ → Session → Session
counted pkts bytes s = record s {
  world = record s.world { snmp = add_out pkts bytes s.world.snmp };
}

abbrev pub count_out : ℕ → ℕ → Sender → Sender
count_out pkts bytes t = record t { session = counted pkts bytes t.session }

abbrev pub after_sent : List (List ℕ) → Sender → Sender
after_sent packets t = record t { calls = t.calls + 1; written = t.written ++ packets }

abbrev pub refused : ℕ → Sender → Sender
refused err t = record t { calls = t.calls + 1; session = notify_write_error err t.session }

abbrev pub total_bytes : List (List ℕ) → ℕ
total_bytes [] = 0
total_bytes (p ∷ packets) = length p + total_bytes packets

module _ (socket : Socket) where
  -- The loop from the index `i` on, with `n` packets to go: it reads the session's own queue.
  pub default_loop : ℕ → ℕ → (bytes pkgs : ℕ) → Sender → Outcome (ℕ × ℕ × Sender)
  default_loop zero i bytes pkgs t = done (bytes, pkgs, t)
  default_loop (suc n) i bytes pkgs t = index t.session.txqueue i >>= λ p.
      elim (socket.write_to t.calls p) [
        | wrote k ↦ default_loop n (suc i) (bytes + k) (pkgs + 1) (after_sent (p ∷ []) t)
        | write_failed err ↦ done (bytes, pkgs, refused err t)
      ]

  -- The counters get each other's numbers.
  pub default_tx : List (List ℕ) → Sender → Outcome Sender
  default_tx txqueue t = do
    (bytes, pkgs, t') ← default_loop (length txqueue) 0 0 0 t
    done (count_out bytes pkgs t')

  pub batch_loop : ℕ → List (List ℕ) → (nbytes npkts : ℕ) → Sender → Outcome Sender
  batch_loop zero txqueue nbytes npkts t = out_of_fuel
  batch_loop (suc fuel) txqueue nbytes npkts t =
      let went_on = λ (n : ℕ).
        batch_loop fuel (drop n txqueue) (nbytes + total_bytes (take n txqueue)) (npkts + n)
          (after_sent (take n txqueue) t) in
      let call : Outcome Sender = elim (socket.write_batch t.calls txqueue) [
        | wrote_batch n ↦ if leb n (length txqueue) then went_on n else panic
        | no_sendmmsg ↦ default_tx txqueue (record t { calls = t.calls + 1; batch_error = true })
        | batch_failed err ↦ done (count_out npkts nbytes (refused err t))
      ] in
      if ltb 0 (length txqueue) then call else done (count_out npkts nbytes t)

  -- A successful call takes a packet at least, so the fuel is the number of packets and one.
  pub tx : List (List ℕ) → Sender → Outcome Sender
  tx txqueue t =
      if not t.batched || t.batch_error
      then default_tx txqueue t
      else batch_loop (length txqueue + 1) txqueue 0 0 t
