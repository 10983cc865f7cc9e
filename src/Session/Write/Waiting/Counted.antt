-- ===== src/Session/Write/Waiting/Counted.antt =====
-- Calls of `WriteBuffers`: panics, loops, the sizes, and the number of bytes that is returned.
use mathlib.Core.Path.{subst}
use rudp_go.Common.{
  ℕ, ◌+◌, ◌≡◌, refl, List, [], ◌∷◌, Bool, true, false, Option, none, some, if◌then◌else◌, length,
  length-append, Outcome, done, ◌>>=◌, Returns, Returns-bind, Returns-if, Returns-IfDone, IfDone,
  IfDone-bind, IfDone-then, IfDone-mono, IfDone-if, arith,
}
use rudp_go.Rudp.{Rudp}
use rudp_go.Session.{Session, has_send_room}
use rudp_go.Session.Sound.{Sound, same-Sound}
use rudp_go.Session.Read.{Wake, event, timer, socket_error, died, is_late}
use rudp_go.Session.Write.{send_pieces, send_buffers, flush_written, try_write}
use rudp_go.Session.Write.Pieces.{joined}
use rudp_go.Session.Write.Sound.{try_write-Sound}
use rudp_go.Session.Write.Waiting.{
  WriteReply, wrote_bytes, write_timed_out, write_error, write_closed, write_waiting, ended_already,
  end_write, write_round, write_buffers,
}

send_buffers-counts :
    (buffers : List (List ℕ)) (n : ℕ) (r : Rudp)
    → IfDone (send_buffers buffers n r) (λ x. x.0 ≡ n + length (joined buffers))
unfolding send_buffers
send_buffers-counts [] n r = omega arith
send_buffers-counts (buf ∷ buffers) n r =
    IfDone-then (send_pieces (length buf) buf r) _ (λ x. x.0 ≡ n + length (joined (buf ∷ buffers)))
      (λ r'.
        IfDone-mono (send_buffers buffers (n + length buf) r')
          (λ x. x.0 ≡ n + length buf + length (joined buffers)) _
          (send_buffers-counts buffers (n + length buf) r')
          (λ x e. omega (arith, length-append buf (joined buffers))))

-- The number, if there is one, is that of the bytes.
abbrev IsCount : List (List ℕ) → Option ℕ → Type 0
IsCount buffers none = Unit {0}
IsCount buffers (some n) = n ≡ length (joined buffers)

try_write-counts :
    (clock : ℕ → ℕ) (buffers : List (List ℕ)) (s : Session)
    → IfDone (try_write clock buffers s) (λ x. IsCount buffers x.0)
unfolding try_write
try_write-counts clock buffers s =
    IfDone-if (has_send_room s.rudp) _ _ (λ x. IsCount buffers x.0)
      (λ room.
        IfDone-bind (send_buffers buffers 0 s.rudp) _ (λ x. x.0 ≡ 0 + length (joined buffers))
          (λ x. IsCount buffers x.0) (send_buffers-counts buffers 0 s.rudp)
          (λ x e.
            IfDone-then (flush_written clock (record s { rudp = x.1 })) _ (λ y. IsCount buffers y.0)
              (λ y. omega arith)))
      (λ full. tt)

abbrev pub HasCount : List (List ℕ) → WriteReply → Type 0
HasCount buffers (wrote_bytes n) = n ≡ length (joined buffers)
HasCount buffers _ = Unit {0}

-- The sessions that the wakes find are sound.
abbrev pub AllWake : ℕ → List Wake → Type 0
AllWake mtu [] = Unit {0}
AllWake mtu (event later s ∷ wakes) = Sound mtu s × AllWake mtu wakes
AllWake mtu (_ ∷ wakes) = Unit {0}

abbrev pub Answered : ℕ → List (List ℕ) → WriteReply × Session → Type 0
Answered mtu buffers x = Sound mtu x.1 × HasCount buffers x.0

-- The statement at the start of a round gives no number.
abbrev IsNoCount : Option WriteReply → Type 0
IsNoCount (some (wrote_bytes n)) = ⊥
IsNoCount _ = Unit {0}

ended_already-IsNoCount :
    (error_first : Bool) (s : Session) → IsNoCount (ended_already error_first s)
unfolding ended_already
ended_already-IsNoCount error_first s = by_state s.socket_write_error s.has_died error_first
  where
    by_state :
        (w : Option ℕ) (b first : Bool)
        → IsNoCount (elim w [
          | none ↦ if b then some write_closed else none
          | some err ↦
              if b
              then (if first then some (write_error err) else some write_closed)
              else some (write_error err)
        ])
    by_state none true first = tt
    by_state none false first = tt
    by_state (some err) true true = tt
    by_state (some err) true false = tt
    by_state (some err) false first = tt

no_count :
    (buffers : List (List ℕ)) (reply : WriteReply) → IsNoCount (some reply) → HasCount buffers reply
no_count buffers (wrote_bytes n) h = elim h [ ]
no_count buffers write_timed_out h = tt
no_count buffers (write_error err) h = tt
no_count buffers write_closed h = tt
no_count buffers write_waiting h = tt

module _ (clock : ℕ → ℕ) (mtu : ℕ) (error_first : Bool) (buffers : List (List ℕ)) where
  end_write-Answered :
      (now : ℕ) (waits : Outcome (WriteReply × Session)) (x : Option ℕ × Session)
      → Sound mtu x.1
      → IsCount buffers x.0
      → Returns waits (Answered mtu buffers)
      → Returns (end_write now waits x) (Answered mtu buffers)
  unfolding end_write
  end_write-Answered now waits (some n, s) v c h = (v, c)
  end_write-Answered now waits (none, s) v c h =
      Returns-if (is_late now s.write_ddl) _ waits (Answered mtu buffers) (v, tt) h

  write_round-Answered :
      (now : ℕ) (waits : Session → Outcome (WriteReply × Session)) (s : Session)
      → Sound mtu s
      → ((s' : Session) → Sound mtu s' → Returns (waits s') (Answered mtu buffers))
      → Returns (write_round clock error_first buffers now waits s) (Answered mtu buffers)
  unfolding write_round
  write_round-Answered now waits s v h = by_end (ended_already error_first s) refl
    where
      by_end :
          (o : Option WriteReply)
          → ended_already error_first s ≡ o
          → Returns
              (elim o [
                | some reply ↦ done (reply, s)
                | none ↦ try_write clock buffers s >>= λ x. end_write now (waits x.1) x
              ])
              (Answered mtu buffers)
      by_end (some reply) e =
          (v, no_count buffers reply (subst IsNoCount e (ended_already-IsNoCount error_first s)))
      by_end none e =
          Returns-bind (try_write clock buffers s) _ (λ x. Sound mtu x.1 × IsCount buffers x.0)
            (Answered mtu buffers)
            (Returns-IfDone (try_write clock buffers s) (λ x. Sound mtu x.1)
              (λ x. IsCount buffers x.0) (try_write-Sound clock mtu buffers s v)
              (try_write-counts clock buffers s))
            (λ x p. end_write-Answered now (waits x.1) x p.0 p.1 (h x.1 p.0))

-- Whatever ends the waiting of a call of WriteBuffers and however often it waits, on sessions with
-- sound sizes and an MTU of at most 1500 bytes: the call returns or still waits, without a panic and without looping for ever, the
-- sizes are sound, and a number of bytes that it returns is that of all the buffers together.
pub write_buffers_lem :
    (clock : ℕ → ℕ) (mtu : ℕ) (error_first : Bool) (buffers : List (List ℕ)) (now : ℕ)
    (wakes : List Wake) (s : Session)
    → Sound mtu s
    → AllWake mtu wakes
    → Returns (write_buffers clock error_first buffers now wakes s) (Answered mtu buffers)
unfolding write_buffers
write_buffers_lem clock mtu error_first buffers now [] s v h =
    write_round-Answered clock mtu error_first buffers now _ s v (λ s' v'. (v', tt))
write_buffers_lem clock mtu error_first buffers now (event later s₁ ∷ wakes) s v h =
    write_round-Answered clock mtu error_first buffers now _ s v (λ s' v'.
      write_buffers_lem clock mtu error_first buffers later wakes
        (record s₁ { write_event = false }) (same-Sound mtu s₁ _ refl refl refl refl h.0) h.1)
write_buffers_lem clock mtu error_first buffers now (timer ∷ wakes) s v h =
    write_round-Answered clock mtu error_first buffers now _ s v (λ s' v'. (v', tt))
write_buffers_lem clock mtu error_first buffers now (socket_error err ∷ wakes) s v h =
    write_round-Answered clock mtu error_first buffers now _ s v (λ s' v'. (v', tt))
write_buffers_lem clock mtu error_first buffers now (died ∷ wakes) s v h =
    write_round-Answered clock mtu error_first buffers now _ s v (λ s' v'. (v', tt))
