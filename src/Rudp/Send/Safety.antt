-- ===== src/Rudp/Send/Safety.antt =====
-- `Send` of rudp.go on any buffer: the sizes.
use native.Mathlib.Decide.{dec_le}
use rudp_go.Common.{
  ℕ, ◌*◌, ◌≤◌, ◌<◌, refl, List, [], ◌∷◌, length, ◌==◌, Bool-cases, inl, inr, arith, All-append,
  Returns, Returns-mono, ℤ,
}
use rudp_go.Rudp.{Rudp}
use rudp_go.Rudp.Sized.{Sized, SizedAt}
use rudp_go.Rudp.Send.{send, send_fragments, fill_last}
use rudp_go.Rudp.Send.Fragments.{Queued, send_fragments-Queued, send_fragments_refuses}
use rudp_go.Rudp.Send.Stream.{filled, filled-Sized, some_left}

Queued-Sized :
    (r : Rudp) (buffer : List ℕ) (x : ℤ × Rudp) → Sized r → Queued r buffer x → SizedAt r.mtu x.1
Queued-Sized r buffer x v (code, segs, e, few, s) = rw e (
  record {
    room = v.room;
    some_data = v.some_data;
    pooled = v.pooled;
    stored = v.stored;
    queued = All-append (λ s. length s.payload ≤ r.mss) r.snd_queue segs v.queued s.fits;
    sent = v.sent;
  },
  refl,
)

send_fragments-Sized :
    (r : Rudp) (buffer : List ℕ)
    → Sized r
    → 0 < length buffer
    → Returns (send_fragments r buffer) (λ x. SizedAt r.mtu x.1)
send_fragments-Sized r buffer v any = elim (dec_le (length buffer) (255 * r.mss)) [
  | yes fits ↦
      Returns-mono (send_fragments r buffer) (Queued r buffer) _
        (send_fragments-Queued r buffer v any fits) λ x q. Queued-Sized r buffer x v q
  | no long ↦ rw (send_fragments_refuses r buffer v.some_data (omega arith)) (v, refl)
]

pub send-Sized :
    (r : Rudp) (buffer : List ℕ) → Sized r → Returns (send r buffer) (λ x. SizedAt r.mtu x.1)
unfolding send
send-Sized r [] v = (v, refl)
send-Sized r (b ∷ bs) v = elim (Bool-cases (r.stream == 0)) [
  | inl message ↦ rw message (send_fragments-Sized r (b ∷ bs) v (omega arith))
  | inr stream ↦ rw stream (elim (Bool-cases (length rest == 0)) [
    | inl used ↦ rw used (v', refl)
    | inr left ↦ rw left (send_fragments-Sized (filled r (b ∷ bs)) rest v' (some_left rest left))
  ])
]
  where
    rest : List ℕ
    rest = (fill_last r.mss r.snd_queue (b ∷ bs)).1

    v' : Sized (filled r (b ∷ bs))
    v' = filled-Sized r (b ∷ bs) v
