-- ===== src/Rudp/Delivery/Sizes.antt =====
-- parseData and Receive of rudp.go: the sizes of the send side.
use mathlib.Core.List.{reverse}
use rudp_go.Common.{
  ℕ, ◌≤◌, refl, length, Bool-cases, inl, inr, Returns, Returns-bind, leb, ltb, ◌||◌, add32, le→leb,
  arith, ℤ, pos, negsuc,
}
use rudp_go.Wire.{Segment}
use rudp_go.Rudp.{Rudp, mtu_limit}
use rudp_go.Rudp.Sized.{SizedAt, SameSizes-SizedAt}
use rudp_go.Rudp.Delivery.{
  find_place, store, move_ready, parse_data, take_message, receive_sized, receive, peek_size,
}

module _ (mtu : ℕ) where
  move_ready-Sized : (r : Rudp) → SizedAt mtu r → SizedAt mtu (move_ready r)
  unfolding move_ready
  move_ready-Sized r v = ground arith

  store-Sized :
      (seg : Segment) (r : Rudp)
      → length seg.payload ≤ mtu_limit
      → SizedAt mtu r
      → Returns (store seg r) (λ x. SizedAt mtu x.1)
  unfolding store
  store-Sized seg r h v = elim (Bool-cases (find_place seg.sn (reverse r.rcv_buf)).0) [
    | inl repeat ↦ rw repeat v
    | inr new ↦
        rw (new, le→leb _ _ h)
          (SameSizes-SizedAt mtu
            (record {
              mtu = refl;
              mss = refl;
              reserved = refl;
              buffer = refl;
              snd_queue = refl;
              snd_buf = refl;
            })
            v)
  ]

  pub parse_data-Sized :
      (seg : Segment) (r : Rudp)
      → length seg.payload ≤ mtu_limit
      → SizedAt mtu r
      → Returns (parse_data seg r) (λ x. SizedAt mtu x.1)
  unfolding parse_data
  parse_data-Sized seg r h v =
      elim (Bool-cases (leb (add32 r.rcv_nxt r.rcv_wnd) seg.sn || ltb seg.sn r.rcv_nxt)) [
        | inl outside ↦ rw outside v
        | inr inside ↦ rw inside (
            Returns-bind (store seg r) _ (λ x. SizedAt mtu x.1) _ (store-Sized seg r h v)
              λ x w. move_ready-Sized x.1 w)
      ]

  take_message-Sized : (r : Rudp) → SizedAt mtu r → SizedAt mtu (take_message r).1
  unfolding take_message move_ready
  take_message-Sized r v = ground arith

  receive_sized-Sized :
      (size : ℤ) (room : ℕ) (r : Rudp) → SizedAt mtu r → SizedAt mtu (receive_sized size room r).1
  unfolding receive_sized
  receive_sized-Sized (negsuc n) room r v = v
  receive_sized-Sized (pos size) room r v = elim (Bool-cases (ltb room size)) [
    | inl small ↦ rw small v
    | inr fits ↦ rw fits (take_message-Sized r v)
  ]

  pub receive-Sized : (room : ℕ) (r : Rudp) → SizedAt mtu r → SizedAt mtu (receive room r).1
  unfolding receive
  receive-Sized room r v = receive_sized-Sized (peek_size r) room r v
