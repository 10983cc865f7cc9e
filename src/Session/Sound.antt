-- ===== src/Session/Sound.antt =====
-- Sound sessions: the sizes of the RUDP, and of the packets for the socket.
use mathlib.Core.Path.{subst}
use rudp_go.Common.{
  ℕ, ◌+◌, ◌≤◌, ◌≡◌, refl, sym, ◌∙◌, List, [], ◌∷◌, length, All, All-append, leb, ◌==◌, ◌||◌, ◌&&◌,
  if◌then◌else◌, Bool, true, false, Bool-cases, inl, inr, Returns, Returns-bind, Returns-if, pos,
  le→leb, done, arith, ltb_ℤ,
}
use rudp_go.Wire.{overhead}
use rudp_go.Rudp.{Rudp, World, mtu_limit}
use rudp_go.Rudp.Sized.{SizedAt}
use rudp_go.Rudp.Delivery.{peek_size}
use rudp_go.Rudp.Flush.{flush}
use rudp_go.Rudp.Flush.Packet.Bounds.{Within}
use rudp_go.Rudp.Flush.Safety.{Flushed, flush-Flushed}
use rudp_go.Rudp.Input.{input}
use rudp_go.Rudp.Input.Loop.Bounds.{Safe}
use rudp_go.Rudp.Input.Safety.{input-Safe}
use rudp_go.Rudp.Config.Bounds.{release_tx-Sized}
use rudp_go.Rudp.Config.{release_tx}
use rudp_go.Session.{
  Session, output, take_packets, after_call, uncork, notify_read_event, notify_write_event,
  has_send_room, flush_session, update, rudp_input, packet_input, close, crypt_header_size,
}

abbrev pub AllShort : ℕ → List (List ℕ) → Type 0
AllShort mtu = All (λ (p : List ℕ). length p ≤ mtu)

-- A packet of the MTU fits a pooled buffer.
pub record Sound (mtu : ℕ) (s : Session) : Type 0 where
  pub pooled : mtu ≤ mtu_limit
  pub sized : SizedAt mtu s.rudp
  pub packets : AllShort mtu s.world.packets
  pub queued : AllShort mtu s.txqueue
  pub sent : AllShort mtu s.handed

output-AllShort :
    (mtu : ℕ) (p : List ℕ) (queue : List (List ℕ))
    → mtu ≤ mtu_limit
    → length p ≤ mtu
    → AllShort mtu queue
    → Returns (output p queue) (AllShort mtu)
unfolding output
output-AllShort mtu p queue pooled short h =
    rw (le→leb (length p) mtu_limit (omega arith))
      (All-append (λ (q : List ℕ). length q ≤ mtu) queue (p ∷ []) h (short, tt))

take_packets-AllShort :
    (mtu header_size : ℕ) (packets queue : List (List ℕ))
    → mtu ≤ mtu_limit
    → AllShort mtu packets
    → AllShort mtu queue
    → Returns (take_packets header_size packets queue) (AllShort mtu)
unfolding take_packets
take_packets-AllShort mtu header_size [] queue pooled h k = k
take_packets-AllShort mtu header_size (p ∷ packets) queue pooled h k =
    Returns-bind _ _ (AllShort mtu) (AllShort mtu)
      (Returns-if (leb (overhead + header_size) (length p)) (output p queue) (done queue)
        (AllShort mtu) (output-AllShort mtu p queue pooled h.0 k) k)
      λ queue' k'. take_packets-AllShort mtu header_size packets queue' pooled h.1 k'

module _ (mtu : ℕ) where
  after_call-Sound :
      (r : Rudp) (w : World) (s : Session)
      → Safe mtu r w
      → Sound mtu s
      → Returns (after_call r w s) (Sound mtu)
  unfolding after_call
  after_call-Sound r w s f v =
      Returns-bind (take_packets s.header_size w.packets s.txqueue) _ (AllShort mtu) (Sound mtu)
        (take_packets-AllShort mtu s.header_size w.packets s.txqueue v.pooled f.1 v.queued)
        λ queue h. record {
          pooled = v.pooled;
          sized = f.0;
          packets = tt;
          queued = h;
          sent = v.sent;
        }

  pub uncork-Sound : (s : Session) → Sound mtu s → Sound mtu (uncork s)
  unfolding uncork
  uncork-Sound s v = record {
    pooled = v.pooled;
    sized = v.sized;
    packets = v.packets;
    queued = tt;
    sent = All-append (λ (p : List ℕ). length p ≤ mtu) s.handed s.txqueue v.sent v.queued;
  }

  -- Marks and counters do not matter.
  pub same-Sound :
      (s s' : Session)
      → s'.rudp ≡ s.rudp
      → s'.world.packets ≡ s.world.packets
      → s'.txqueue ≡ s.txqueue
      → s'.handed ≡ s.handed
      → Sound mtu s
      → Sound mtu s'
  same-Sound s s' e1 e2 e3 e4 v = record {
    pooled = v.pooled;
    sized = rw e1 v.sized;
    packets = rw e2 v.packets;
    queued = rw e3 v.queued;
    sent = rw e4 v.sent;
  }

  pub notified_read : (s : Session) → Sound mtu s → Sound mtu (notify_read_event s)
  unfolding notify_read_event
  notified_read s v = same-Sound s _ refl refl refl refl v

  pub notified_write : (s : Session) → Sound mtu s → Sound mtu (notify_write_event s)
  unfolding notify_write_event
  notified_write s v = same-Sound s _ refl refl refl refl v

  -- A notification that depends on a test.
  notify_read_event-Sound :
      (b : Bool) (s : Session) → Sound mtu s → Sound mtu (if b then notify_read_event s else s)
  notify_read_event-Sound true s v = notified_read s v
  notify_read_event-Sound false s v = v

  notify_write_event-Sound :
      (b : Bool) (s : Session) → Sound mtu s → Sound mtu (if b then notify_write_event s else s)
  notify_write_event-Sound true s v = notified_write s v
  notify_write_event-Sound false s v = v

module _ (clock : ℕ → ℕ) (mtu : ℕ) where
  pub flush_session-Sound :
      (s : Session) → Sound mtu s → Returns (flush_session clock s) (λ x. Sound mtu x.1)
  unfolding flush_session
  flush_session-Sound s v =
      Returns-bind (flush clock false s.rudp s.world) _ (Flushed s.rudp.mtu) _
        (flush-Flushed clock false s.rudp s.world v.sized.0
          (subst (λ m. Within m s.world) (sym v.sized.1) v.packets))
        λ x f.
          Returns-bind (after_call x.1 x.2 s) _ (Sound mtu) _
            (after_call-Sound mtu x.1 x.2 s
              ((f.0, f.1 ∙ v.sized.1), subst (λ m. Within m x.2) v.sized.1 f.2) v)
            λ s' v'. v'

  pub update-Sound : (s : Session) → Sound mtu s → Returns (update clock s) (λ x. Sound mtu x.1)
  unfolding update
  update-Sound s v =
      Returns-if s.has_died _ _ (λ x. Sound mtu x.1) v
        (Returns-bind (flush_session clock s) _ (λ x. Sound mtu x.1) _ (flush_session-Sound s v)
          λ x v'. uncork-Sound mtu _ (notify_write_event-Sound mtu (has_send_room x.1.rudp) x.1 v'))

  pub rudp_input-Sound :
      (packet : List ℕ) (s : Session)
      → length packet ≤ mtu_limit
      → Sound mtu s
      → Returns (rudp_input clock packet s) (Sound mtu)
  unfolding rudp_input
  rudp_input-Sound packet s small v =
      Returns-bind (input clock packet true s.ack_no_delay s.rudp s.world) _
        (λ x. Safe s.rudp.mtu x.1 x.2) _
        (input-Safe clock packet true s.ack_no_delay s.rudp s.world small v.sized.0
          (subst (λ m. Within m s.world) (sym v.sized.1) v.packets))
        λ x f.
          Returns-bind (after_call x.1 x.2 s) _ (Sound mtu) (Sound mtu)
            (after_call-Sound mtu x.1 x.2 s (subst (λ m. Safe m x.1 x.2) v.sized.1 f) v)
            λ s1 v1.
              let v2 = notify_read_event-Sound mtu (ltb_ℤ (pos 0) (peek_size x.1)) _ v1 in
              let v3 = notify_write_event-Sound mtu (has_send_room x.1) _ v2 in
              same-Sound mtu _ _ refl refl refl refl (uncork-Sound mtu _ v3)

  pub packet_input-Sound :
      (packet : List ℕ) (s : Session)
      → length packet ≤ mtu_limit
      → Sound mtu s
      → Returns (packet_input clock packet s) (Sound mtu)
  unfolding packet_input
  packet_input-Sound packet s small v =
      elim (Bool-cases (
        (s.header_size == 0 || leb (length packet) crypt_header_size)
        && leb overhead (length packet))) [
          | inl handled ↦ rw handled (rudp_input-Sound packet s small v)
          | inr dropped ↦ rw dropped v
        ]

  pub close-Sound : (s : Session) → Sound mtu s → Returns (close clock s) (λ x. Sound mtu x.1)
  unfolding close
  close-Sound s v =
      Returns-if s.has_died _ _ (λ x. Sound mtu x.1) v
        (Returns-bind (flush_session clock _) _ (λ x. Sound mtu x.1) _
          (flush_session-Sound _ (same-Sound mtu s _ refl refl refl refl v))
          λ x v'. released (uncork x.1) (uncork-Sound mtu x.1 v'))
    where
      released : (s : Session) → Sound mtu s → Sound mtu (record s { rudp = release_tx s.rudp })
      released s v = record {
        pooled = v.pooled;
        sized = release_tx-Sized mtu s.rudp v.sized;
        packets = v.packets;
        queued = v.queued;
        sent = v.sent;
      }
