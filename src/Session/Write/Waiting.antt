-- ===== src/Session/Write/Waiting.antt =====
-- `WriteBuffers` of sess.go: its rounds, and the waiting between them.
pub mod Counted
use rudp_go.Common.{
  ℕ, List, [], ◌∷◌, Bool, true, false, Option, none, some, if◌then◌else◌, Outcome, done, ◌>>=◌,
}
use rudp_go.Session.{Session}
use rudp_go.Session.Read.{Wake, event, timer, socket_error, died, is_late}
use rudp_go.Session.Write.{try_write}

-- What `WriteBuffers` returns; `write_waiting` is a call that no further wake has ended.
pub data WriteReply : Type 0 where
  wrote_bytes : ℕ → WriteReply
  write_timed_out : WriteReply
  write_error : ℕ → WriteReply
  write_closed : WriteReply
  write_waiting : WriteReply

-- The select statement at the start of a round: `none` is its default case. Where both channels
-- are closed, it may take either; `error_first` says which.
unfoldable pub ended_already : Bool → Session → Option WriteReply
ended_already error_first s = elim s.socket_write_error [
  | none ↦ if s.has_died then some write_closed else none
  | some err ↦
      if s.has_died
      then (if error_first then some (write_error err) else some write_closed)
      else some (write_error err)
]

-- A round that has taken the bytes returns their number; one that has not looks at the deadline and
-- then waits.
pub end_write :
    ℕ → Outcome (WriteReply × Session) → Option ℕ × Session → Outcome (WriteReply × Session)
end_write now waits (some n, s) = done (wrote_bytes n, s)
end_write now waits (none, s) = if is_late now s.write_ddl then done (write_timed_out, s) else waits

-- A round, with what happens if it has to wait, on the state that it has left.
pub write_round :
    (ℕ → ℕ)
    → Bool
    → List (List ℕ)
    → ℕ
    → (Session → Outcome (WriteReply × Session))
    → Session
    → Outcome (WriteReply × Session)
write_round clock error_first buffers now waits s = elim (ended_already error_first s) [
  | some reply ↦ done (reply, s)
  | none ↦ try_write clock buffers s >>= λ x. end_write now (waits x.1) x
]

-- The loop, over the wakes of the call. An event takes its token from the channel.
pub write_buffers :
    (ℕ → ℕ) → Bool → List (List ℕ) → ℕ → List Wake → Session → Outcome (WriteReply × Session)
write_buffers clock error_first buffers now [] =
    write_round clock error_first buffers now (λ s. done (write_waiting, s))
write_buffers clock error_first buffers now (event later s' ∷ wakes) =
    write_round clock error_first buffers now
      (λ s. write_buffers clock error_first buffers later wakes (record s' { write_event = false }))
write_buffers clock error_first buffers now (timer ∷ wakes) =
    write_round clock error_first buffers now (λ s. done (write_timed_out, s))
write_buffers clock error_first buffers now (socket_error err ∷ wakes) =
    write_round clock error_first buffers now (λ s. done (write_error err, s))
write_buffers clock error_first buffers now (died ∷ wakes) =
    write_round clock error_first buffers now (λ s. done (write_closed, s))
