-- ===== src/Rudp/Calls.antt =====
-- The calls that a session makes on a RUDP, in any order: Send, Receive, Input, flush, WndSize,
-- NoDelay and ReleaseTX of rudp.go.
pub mod Safety
use rudp_go.Common.{ℕ, ◌≤◌, List, [], ◌∷◌, Bool, Outcome, done, ◌>>=◌, ℤ, length}
use rudp_go.Rudp.{Rudp, World, mtu_limit}
use rudp_go.Rudp.Send.{send}
use rudp_go.Rudp.Delivery.{receive}
use rudp_go.Rudp.Flush.{flush}
use rudp_go.Rudp.Input.{input}
use rudp_go.Rudp.Config.{wnd_size, no_delay, release_tx}

pub data Call : Type 0 where
  send_bytes : List ℕ → Call
  receive_into : ℕ → Call
  input_packet : List ℕ → (regular ack_no_delay : Bool) → Call
  flush_now : Bool → Call
  set_windows : ℤ → ℤ → Call
  set_timing : ℤ → ℤ → ℤ → ℤ → Call
  release : Call

pub perform : (ℕ → ℕ) → Call → Rudp → World → Outcome (Rudp × World)
perform clock (send_bytes buffer) r w = do (code, r') ← send r buffer; done (r', w)
perform clock (receive_into room) r w = done ((receive room r).1, w)
perform clock (input_packet packet regular ack_no_delay) r w = do
  (code, r', w') ← input clock packet regular ack_no_delay r w
  done (r', w')
perform clock (flush_now ack_only) r w = do (next, r', w') ← flush clock ack_only r w; done (r', w')
perform clock (set_windows sndwnd rcvwnd) r w = done (wnd_size sndwnd rcvwnd r, w)
perform clock (set_timing nodelay interval resend nc) r w =
    done (no_delay nodelay interval resend nc r, w)
perform clock release r w = done (release_tx r, w)

pub perform_all : (ℕ → ℕ) → List Call → Rudp → World → Outcome (Rudp × World)
perform_all clock [] r w = done (r, w)
perform_all clock (c ∷ calls) r w = do (r', w') ← perform clock c r w; perform_all clock calls r' w'

-- A socket's read buffer bounds a packet; nothing else is asked of a call.
abbrev pub IsPossible : Call → Type 0
IsPossible (input_packet packet regular ack_no_delay) = length packet ≤ mtu_limit
IsPossible _ = Unit {0}
