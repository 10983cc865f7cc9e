-- ===== src/Session/Write/Sound.antt =====
-- `WriteBuffers` of sess.go and sound sessions.
use rudp_go.Common.{
  ℕ, zero, suc, ◌+◌, ◌≤◌, refl, ◌∙◌, List, [], ◌∷◌, length, take, drop, length-drop, leb, le→leb,
  not, ◌||◌, arith, Returns, Returns-bind, Returns-if, Returns-mono, done, ◌>>=◌,
}
use rudp_go.Rudp.{Rudp}
use rudp_go.Rudp.Sized.{SizedAt}
use rudp_go.Rudp.Send.{send}
use rudp_go.Rudp.Send.Safety.{send-Sized}
use rudp_go.Session.{Session, has_send_room, flush_session}
use rudp_go.Session.Sound.{Sound, same-Sound, flush_session-Sound, uncork-Sound}
use rudp_go.Session.Write.{send_pieces, send_buffers, flush_written, try_write}

module _ (mtu : ℕ) where
  piece-Sized :
      (buf : List ℕ) (r : Rudp) → SizedAt mtu r → Returns (send r buf) (λ x. SizedAt mtu x.1)
  piece-Sized buf r v = Returns-mono (send r buf) _ _ (send-Sized r buf v.0) λ x w. (w.0, w.1 ∙ v.1)

  last-Sized :
      (buf : List ℕ) (r : Rudp)
      → SizedAt mtu r
      → Returns (send r buf >>= λ x. done x.1) (SizedAt mtu)
  last-Sized buf r v =
      Returns-bind (send r buf) _ (λ x. SizedAt mtu x.1) _ (piece-Sized buf r v) λ x w. w

  send_pieces-Sized :
      (fuel : ℕ) (buf : List ℕ) (r : Rudp)
      → length buf ≤ fuel
      → SizedAt mtu r
      → Returns (send_pieces fuel buf r) (SizedAt mtu)
  unfolding send_pieces
  send_pieces-Sized zero buf r h v =
      rw (le→leb (length buf) r.mss (omega arith)) (last-Sized buf r v)
  send_pieces-Sized (suc fuel) buf r h v =
      Returns-if (leb (length buf) r.mss) _ _ (SizedAt mtu) (last-Sized buf r v) (
        Returns-bind (send r (take r.mss buf)) _ (λ x. SizedAt mtu x.1) _
          (piece-Sized (take r.mss buf) r v)
          λ x w.
            send_pieces-Sized fuel (drop r.mss buf) x.1
              (omega (arith, length-drop r.mss buf, v.0.some_data)) w)

  send_buffers-Sized :
      (buffers : List (List ℕ)) (n : ℕ) (r : Rudp)
      → SizedAt mtu r
      → Returns (send_buffers buffers n r) (λ x. SizedAt mtu x.1)
  unfolding send_buffers
  send_buffers-Sized [] n r v = v
  send_buffers-Sized (buf ∷ buffers) n r v =
      Returns-bind (send_pieces (length buf) buf r) _ (SizedAt mtu) _
        (send_pieces-Sized (length buf) buf r (omega arith) v)
        λ r' w. send_buffers-Sized buffers (n + length buf) r' w

module _ (clock : ℕ → ℕ) (mtu : ℕ) where
  flush_written-Sound : (s : Session) → Sound mtu s → Returns (flush_written clock s) (Sound mtu)
  unfolding flush_written
  flush_written-Sound s v =
      Returns-if (not (has_send_room s.rudp) || not s.write_delay) _ _ (Sound mtu)
        (Returns-bind (flush_session clock s) _ (λ x. Sound mtu x.1) _
          (flush_session-Sound clock mtu s v) λ x v'. uncork-Sound mtu x.1 v')
        v

  pub try_write-Sound :
      (buffers : List (List ℕ)) (s : Session)
      → Sound mtu s
      → Returns (try_write clock buffers s) (λ x. Sound mtu x.1)
  unfolding try_write
  try_write-Sound buffers s v =
      Returns-if (has_send_room s.rudp) _ _ (λ x. Sound mtu x.1)
        (Returns-bind (send_buffers buffers 0 s.rudp) _ (λ x. SizedAt mtu x.1) _
          (send_buffers-Sized mtu buffers 0 s.rudp v.sized)
          λ x h.
            Returns-bind (flush_written clock (record s { rudp = x.1 })) _ (Sound mtu) _
              (flush_written-Sound (record s { rudp = x.1 })
                (record {
                  pooled = v.pooled;
                  sized = h;
                  packets = v.packets;
                  queued = v.queued;
                  sent = v.sent;
                }))
              λ s' v'. same-Sound mtu s' _ refl refl refl refl v')
        v
