-- ===== src/Rudp/Flush/Parts.antt =====
-- `flush` of rudp.go, part by part: the packet stays sound and the sizes stay.
use Prim.Native.Nat.{bit_and}
use rudp_go.Common.{
  ℕ, ◌≤◌, ◌≡◌, refl, List, [], ◌∷◌, length, All-append, All-drop, arith, ◌>>=◌, Returns,
  Returns-bind, leb, ◌==◌, ◌||◌, Bool-cases, inl, inr, add32,
}
use rudp_go.Wire.{Segment, overhead}
use rudp_go.Rudp.{Rudp, World, AckItem}
use rudp_go.Rudp.Sized.{Sized, AtMost, SameSizes}
use rudp_go.Rudp.Flush.Packet.{Out, make_space, encode_header}
use rudp_go.Rudp.Flush.Packet.Bounds.{Sound, make_space-Sound, encode_header-Sound}
use rudp_go.Rudp.Flush.{
  send_acks, update_probe, send_probe, admit, fill_window, adjust_cwnd, after_change, after_loss,
  at_least_one_segment,
}

-- A header in the packet, wherever there is room for a packet at all.
header-Sound :
    (r : Rudp) (seg : Segment) (o : Out)
    → Sized r
    → Sound r 0 o
    → Returns (make_space r overhead o >>= encode_header seg) (Sound r 0)
header-Sound r seg o v so =
    Returns-bind (make_space r overhead o) (encode_header seg) (Sound r overhead) (Sound r 0)
      (make_space-Sound r overhead o (omega arith) so) λ o' so'. encode_header-Sound r 0 seg o' so'

weaken : (r : Rudp) (k : ℕ) (o : Out) → Sound r k o → Sound r 0 o
weaken r k o so = record {
  size = so.size;
  start = so.start;
  free = omega arith;
  within = so.within;
}

pub send_acks-Sound :
    (r : Rudp) (acks : List AckItem) (seg : Segment) (o : Out)
    → Sized r
    → Sound r 0 o
    → Returns (send_acks r acks (seg, o)) (λ so. Sound r 0 so.1)
unfolding send_acks
send_acks-Sound r [] seg o v so = so
send_acks-Sound r (ack ∷ acks) seg o v so =
    Returns-bind (make_space r overhead o) _ (Sound r overhead) _
      (make_space-Sound r overhead o (omega arith) so)
      λ o' so'. elim (Bool-cases (leb r.rcv_nxt ack.sn || (length acks == 0))) [
        | inl sent ↦ rw sent (
            Returns-bind (encode_header _ o') _ (Sound r 0) _ (encode_header-Sound r 0 _ o' so')
              λ o'' so''. send_acks-Sound r acks _ o'' v so'')
        | inr skipped ↦ rw skipped (send_acks-Sound r acks seg o' v (weaken r overhead o' so'))
      ]

pub send_probe-Sound :
    (r : Rudp) (flag cmd : ℕ) (seg : Segment) (o : Out)
    → Sized r
    → Sound r 0 o
    → Returns (send_probe r flag cmd (seg, o)) (λ so. Sound r 0 so.1)
unfolding send_probe
send_probe-Sound r flag cmd seg o v so = elim (Bool-cases (bit_and r.probe flag == 0)) [
  | inl unset ↦ rw unset so
  | inr set ↦ rw set (
      Returns-bind (make_space r overhead o) _ (Sound r overhead) _
        (make_space-Sound r overhead o (omega arith) so)
        λ o' so'.
          Returns-bind (encode_header _ o') _ (Sound r 0) _ (encode_header-Sound r 0 _ o' so')
            λ o'' so''. so'')
]

admit-AtMost :
    (r : Rudp) (limit nxt n : ℕ) (q : List Segment) → AtMost n q → AtMost n (admit r limit nxt q)
unfolding admit
admit-AtMost r limit nxt n [] h = tt
admit-AtMost r limit nxt n (s ∷ q) h = ground (arith, admit-AtMost r limit (add32 nxt 1) n q h.1)

pub fill_window-Sized : (cwnd : ℕ) (r : Rudp) → Sized r → Sized (fill_window cwnd r).1
unfolding fill_window
fill_window-Sized cwnd r v = record {
  room = v.room;
  some_data = v.some_data;
  pooled = v.pooled;
  stored = v.stored;
  queued = All-drop (λ s. length s.payload ≤ r.mss) _ r.snd_queue v.queued;
  sent =
      All-append (λ s. length s.payload ≤ r.mss) r.snd_buf _ v.sent
        (admit-AtMost r _ r.snd_nxt r.mss r.snd_queue v.queued);
}

pub fill_window-limits :
    (cwnd : ℕ) (r : Rudp)
    → let r' = (fill_window cwnd r).1 in (r'.mtu ≡ r.mtu) × (r'.reserved ≡ r.reserved)
unfolding fill_window
fill_window-limits cwnd r = (refl, refl)

pub update_probe-SameSizes :
    (clock : ℕ → ℕ) (r : Rudp) (w : World) → SameSizes r (update_probe clock r w).0
unfolding update_probe
update_probe-SameSizes clock r w = ground arith

pub update_probe-packets :
    (clock : ℕ → ℕ) (r : Rudp) (w : World) → (update_probe clock r w).1.packets ≡ w.packets
unfolding update_probe
update_probe-packets clock r w = ground arith

pub adjust_cwnd-SameSizes :
    (change lost resent cwnd : ℕ) (r : Rudp) → SameSizes r (adjust_cwnd change lost resent cwnd r)
unfolding adjust_cwnd after_change after_loss at_least_one_segment
adjust_cwnd-SameSizes change lost resent cwnd r = ground arith

-- Soundness of a packet depends on the sizes alone.
pub Sound-mono :
    (r r' : Rudp) (o : Out) (w : World)
    → r'.mtu ≡ r.mtu
    → r'.reserved ≡ r.reserved
    → w.packets ≡ o.world.packets
    → Sound r 0 o
    → Sound r' 0 (record o { world = w })
Sound-mono r r' o w em er ep so = record {
  size = omega arith;
  start = omega arith;
  free = so.free;
  within = rw (em, ep) so.within;
}
