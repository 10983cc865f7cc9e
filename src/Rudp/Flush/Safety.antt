-- ===== src/Rudp/Flush/Safety.antt =====
-- `flush` of rudp.go: the bounds of its buffer and of its packets.
use mathlib.Core.Path.{subst}
use rudp_go.Common.{
  ℕ, ◌≡◌, refl, ◌∙◌, [], done, Returns, Returns-bind, Bool, if◌then◌else◌, uint32_max, sym, true,
  false,
}
use rudp_go.Wire.{Segment}
use rudp_go.Rudp.{Rudp, World}
use rudp_go.Rudp.Sized.{Sized, SameSizes, SameSizes-Sized}
use rudp_go.Rudp.Flush.Packet.{Out, start_out, flush_buffer}
use rudp_go.Rudp.Flush.Packet.Bounds.{
  Sound, Within, start_out-Sound, flush_buffer-Within, flush_buffer-size,
}
use rudp_go.Rudp.Flush.Transmit.{Resend, resend_all}
use rudp_go.Rudp.Flush.Transmit.Bounds.{Passed, AtMost-parts, resend_all-Passed}
use rudp_go.Rudp.Flush.{
  ack_segment, send_acks, update_probe, send_probe, send_window, fill_window, resent_limit,
  adjust_cwnd, keep_buffer, finish_flush, flush_push, flush_acks, flush_data, flush,
}
use rudp_go.Rudp.Flush.Parts.{
  send_acks-Sound, send_probe-Sound, fill_window-Sized, fill_window-limits, update_probe-SameSizes,
  update_probe-packets, adjust_cwnd-SameSizes, Sound-mono,
}

-- What a flush leaves behind.
abbrev pub Flushed : ℕ → ℕ × Rudp × World → Type 0
Flushed mtu x = Sized x.1 × (x.1.mtu ≡ mtu) × Within mtu x.2

finish_flush-Flushed :
    (resent cwnd : ℕ) (r : Rudp) (res : Resend)
    → Sized r
    → Passed r r.snd_buf res
    → Flushed r.mtu (finish_flush resent cwnd r res)
unfolding finish_flush
finish_flush-Flushed resent cwnd r res v p =
    (SameSizes-Sized same sized, same.mtu, flush_buffer-Within r res.out p.sound)
  where
    r' : Rudp
    r' = record r { snd_buf = res.sent_buf; state = (if res.dead then uint32_max else r.state) }

    kept : Rudp
    kept = keep_buffer (flush_buffer r res.out) r'

    sized : Sized kept
    sized = record {
      room = v.room;
      some_data = v.some_data;
      pooled = v.pooled;
      stored = flush_buffer-size r res.out ∙ p.sound.size;
      queued = v.queued;
      sent = AtMost-parts r.mss res.sent_buf r.snd_buf p.parts v.sent;
    }

    same : SameSizes kept (adjust_cwnd res.change res.lost resent cwnd kept)
    same = adjust_cwnd-SameSizes res.change res.lost resent cwnd kept

flush_push-Flushed :
    (clock : ℕ → ℕ) (r : Rudp) (seg : Segment) (o : Out)
    → Sized r
    → Sound r 0 o
    → Returns (flush_push clock r (seg, o)) (Flushed r.mtu)
unfolding flush_push
flush_push-Flushed clock r seg o v so =
    Returns-bind (resend_all clock r' seg filled.0 (resent_limit r') r'.snd_buf _) _
      (Passed r' r'.snd_buf) _
      (resend_all-Passed clock r' seg filled.0 (resent_limit r') r'.snd_buf [] _ v' v'.sent
        (record { sound = Sound-mono r r' o _ same.0 same.1 refl so; parts = refl }))
      λ res p.
        subst (λ m. Flushed m (finish_flush (resent_limit r') (send_window r) r' res)) same.0
          (finish_flush-Flushed (resent_limit r') (send_window r) r' res v' p)
  where
    filled : ℕ × Rudp
    filled = fill_window (send_window r) r

    r' : Rudp
    r' = filled.1

    v' : Sized r'
    v' = fill_window-Sized (send_window r) r v

    same : (r'.mtu ≡ r.mtu) × (r'.reserved ≡ r.reserved)
    same = fill_window-limits (send_window r) r

flush_data-Flushed :
    (clock : ℕ → ℕ) (r : Rudp) (seg : Segment) (o : Out)
    → Sized r
    → Sound r 0 o
    → Returns (flush_data clock r (seg, o)) (Flushed r.mtu)
unfolding flush_data
flush_data-Flushed clock r seg o v so =
    Returns-bind (send_probe r' _ _ _) _ (λ so. Sound r' 0 so.1) _
      (send_probe-Sound r' _ _ seg _ v'
        (Sound-mono r r' o _ same.mtu same.reserved (update_probe-packets clock r o.world) so))
      λ so1 s1.
        Returns-bind (send_probe r' _ _ so1) _ (λ so. Sound r' 0 so.1) _
          (send_probe-Sound r' _ _ so1.0 so1.1 v' s1)
          λ so2 s2.
            subst (λ m. Returns (flush_push clock (record r' { probe = 0 }) so2) (Flushed m))
              same.mtu
              (flush_push-Flushed clock (record r' { probe = 0 }) so2.0 so2.1 probed
                (Sound-mono r' _ so2.1 so2.1.world refl refl refl s2))
  where
    r' : Rudp
    r' = (update_probe clock r o.world).0

    same : SameSizes r r'
    same = update_probe-SameSizes clock r o.world

    v' : Sized r'
    v' = SameSizes-Sized same v

    probed : Sized (record r' { probe = 0 })
    probed =
        SameSizes-Sized
          (record {
            mtu = refl;
            mss = refl;
            reserved = refl;
            buffer = refl;
            snd_queue = refl;
            snd_buf = refl;
          })
          v'

-- A flush of a RUDP with sound sizes returns: no write runs past the buffer and no slice is out of
-- range. It keeps the sizes and the MTU, and every packet that it hands to the output callback,
-- full or last, is at most the MTU long, if those before it were.
pub flush-Flushed :
    (clock : ℕ → ℕ) (ack_only : Bool) (r : Rudp) (w : World)
    → Sized r
    → Within r.mtu w
    → Returns (flush clock ack_only r w) (Flushed r.mtu)
unfolding flush flush_acks
flush-Flushed clock ack_only r w v h =
    Returns-bind (start_out r w) _ (Sound r 0) _ (start_out-Sound r w v h) λ o so.
      Returns-bind (send_acks r r.ack_list (ack_segment r, o)) _ (λ so. Sound r 0 so.1) _
        (send_acks-Sound r r.ack_list (ack_segment r) o v so) λ so1 s1. last ack_only so1 s1
  where
    r' : Rudp
    r' = record r { ack_list = [] }

    v' : Sized r'
    v' =
        SameSizes-Sized
          (record {
            mtu = refl;
            mss = refl;
            reserved = refl;
            buffer = refl;
            snd_queue = refl;
            snd_buf = refl;
          })
          v

    last :
        (ack_only : Bool) (so : Segment × Out)
        → Sound r 0 so.1
        → Returns
            (if ack_only then done (flush_acks r' so.1) else flush_data clock r' so)
            (Flushed r.mtu)
    last true so s = (
      SameSizes-Sized
          (record {
            mtu = refl;
            mss = refl;
            reserved = refl;
            buffer = flush_buffer-size r' so.1 ∙ s.size ∙ sym v.stored;
            snd_queue = refl;
            snd_buf = refl;
          })
          v',
      refl,
      flush_buffer-Within r' so.1 (Sound-mono r r' so.1 so.1.world refl refl refl s),
    )
    last false so s =
        flush_data-Flushed clock r' so.0 so.1 v' (Sound-mono r r' so.1 so.1.world refl refl refl s)
