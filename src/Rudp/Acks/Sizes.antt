-- ===== src/Rudp/Acks/Sizes.antt =====
-- Acknowledgements and the sizes of the send side.
use rudp_go.Common.{ℕ, ◌≤◌, List, [], ◌∷◌, length, arith, All-drop}
use rudp_go.Wire.{Segment}
use rudp_go.Rudp.{Rudp}
use rudp_go.Rudp.Sized.{SizedAt, AtMost, with_sent}
use rudp_go.Rudp.Acks.Una.{parse_una-eq}
use rudp_go.Rudp.Acks.{
  una_count, parse_una, update_snd_una, mark_acked, parse_ack, count_skipped, parse_fast_ack,
  push_ack,
}

mark_acked-AtMost : (sn n : ℕ) (buf : List Segment) → AtMost n buf → AtMost n (mark_acked sn buf)
unfolding mark_acked
mark_acked-AtMost sn n [] h = tt
mark_acked-AtMost sn n (s ∷ buf) h = ground (arith, mark_acked-AtMost sn n buf h.1)

count_skipped-AtMost :
    (sn ts n : ℕ) (buf : List Segment) → AtMost n buf → AtMost n (count_skipped sn ts buf)
unfolding count_skipped
count_skipped-AtMost sn ts n [] h = tt
count_skipped-AtMost sn ts n (s ∷ buf) h = ground (arith, count_skipped-AtMost sn ts n buf h.1)

module _ (mtu : ℕ) (r : Rudp) (v : SizedAt mtu r) where
  pub parse_una-Sized : (una : ℕ) → SizedAt mtu (parse_una una r).1
  parse_una-Sized una = rw (parse_una-eq una r) (
    with_sent _ v.0
        (All-drop (λ s. length s.payload ≤ r.mss) (una_count una r.snd_buf) r.snd_buf v.0.sent),
    v.1,
  )

  pub update_snd_una-Sized : SizedAt mtu (update_snd_una r)
  unfolding update_snd_una
  update_snd_una-Sized = ground arith

  pub parse_ack-Sized : (sn : ℕ) → SizedAt mtu (parse_ack sn r)
  unfolding parse_ack
  parse_ack-Sized sn = ground (arith, mark_acked-AtMost sn r.mss r.snd_buf v.0.sent)

  pub parse_fast_ack-Sized : (sn ts : ℕ) → SizedAt mtu (parse_fast_ack sn ts r)
  unfolding parse_fast_ack
  parse_fast_ack-Sized sn ts = ground (arith, count_skipped-AtMost sn ts r.mss r.snd_buf v.0.sent)

  pub push_ack-Sized : (sn ts : ℕ) → SizedAt mtu (push_ack sn ts r)
  unfolding push_ack
  push_ack-Sized sn ts = ground arith
