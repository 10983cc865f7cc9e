-- ===== src/Rudp/Input/Loop/Bounds.antt =====
-- The loop of `Input`: its fuel, its bounds and the sizes.
use rudp_go.Common.{
  ℕ, zero, suc, ◌+◌, ◌≤◌, ◌≡◌, refl, List, length, length-take, length-drop, Returns, Returns-bind,
  ltb, ◌==◌, if◌then◌else◌, arith, Bool, Bool-cases, inl, inr, add32, lt→ltb, ◌&&◌,
}
use rudp_go.Wire.{
  Segment, Header, overhead, decode_uint32, decode_fields, cmd_push, cmd_ack, cmd_wask,
}
use rudp_go.Wire.Reading.{decode_uint32-Reads, decode_fields-Reads}
use rudp_go.Rudp.{Rudp, World, mtu_limit}
use rudp_go.Rudp.Sized.{SizedAt, SameSizes-SizedAt}
use rudp_go.Rudp.Acks.{parse_ack}
use rudp_go.Rudp.Acks.Sizes.{
  parse_una-Sized, update_snd_una-Sized, parse_ack-Sized, parse_fast_ack-Sized, push_ack-Sized,
}
use rudp_go.Rudp.Delivery.Sizes.{parse_data-Sized}
use rudp_go.Rudp.Flush.Packet.Bounds.{Within}
use rudp_go.Rudp.Input.Loop.{
  Pass, Ended, returned, all_read, Round, stop, next, is_command, pushed, accept_push, handle_push,
  handle_ack, handle_wask, take_header, dispatch, count_segment, read_segment, input_loop,
  handle_segment, go_on,
}

module _ (mtu : ℕ) where
  -- Sound sizes, and no packet so far above the MTU.
  abbrev pub Safe : Rudp → World → Type 0
  Safe r w = SizedAt mtu r × Within mtu w

  abbrev pub SafePass : Pass → Type 0
  SafePass p = Safe p.rudp p.world

  accept_push-Sized :
      (seg : Segment) (r : Rudp)
      → length seg.payload ≤ mtu_limit
      → SizedAt mtu r
      → Returns (accept_push seg r) (λ x. SizedAt mtu x.1)
  unfolding accept_push
  accept_push-Sized seg r h v = elim (Bool-cases (ltb seg.sn (add32 r.rcv_nxt r.rcv_wnd))) [
    | inr beyond ↦ rw beyond v
    | inl below ↦ elim (Bool-cases (ltb seg.sn r.rcv_nxt)) [
      | inl old ↦ rw (below, old) (push_ack-Sized mtu r v seg.sn seg.ts)
      | inr inside ↦
          rw (below, inside) (parse_data-Sized mtu seg _ h (push_ack-Sized mtu r v seg.sn seg.ts))
    ]
  ]

  handle_push-Safe :
      (regular : Bool) (seg : Segment) (p : Pass)
      → length seg.payload ≤ mtu_limit
      → SafePass p
      → Returns (handle_push regular seg p) SafePass
  unfolding handle_push
  handle_push-Safe regular seg p h v =
      Returns-bind (accept_push seg p.rudp) _ (λ x. SizedAt mtu x.1) _
        (accept_push-Sized seg p.rudp h v.0)
        λ x w. elim (Bool-cases (regular && x.0)) [
          | inl counted ↦ rw counted (w, v.1)
          | inr other ↦ rw other (w, v.1)
        ]

  take_header-Safe :
      (regular : Bool) (h : Header) (p : Pass) → SafePass p → SafePass (take_header regular h p)
  unfolding take_header
  take_header-Safe regular h p v =
      (update_snd_una-Sized mtu _ (parse_una-Sized mtu _ start h.una), v.1)
    where
      start : SizedAt mtu (if regular then record p.rudp { rmt_wnd = h.wnd } else p.rudp)
      start = ground arith

  handle_ack-Safe : (h : Header) (p : Pass) → SafePass p → SafePass (handle_ack h p)
  unfolding handle_ack
  handle_ack-Safe h p v = (
    parse_fast_ack-Sized mtu (parse_ack h.sn p.rudp) (parse_ack-Sized mtu p.rudp v.0 h.sn) h.sn
        h.ts,
    v.1,
  )

  handle_wask-Safe : (p : Pass) → SafePass p → SafePass (handle_wask p)
  unfolding handle_wask
  handle_wask-Safe p v = (
    SameSizes-SizedAt mtu
        (record {
          mtu = refl;
          mss = refl;
          reserved = refl;
          buffer = refl;
          snd_queue = refl;
          snd_buf = refl;
        })
        v.0,
    v.1,
  )

  dispatch-Safe :
      (regular : Bool) (conv : ℕ) (h : Header) (body : List ℕ) (p : Pass)
      → length body ≤ mtu_limit
      → SafePass p
      → Returns (dispatch regular conv h body p) SafePass
  unfolding dispatch
  dispatch-Safe regular conv h body p small v = elim (Bool-cases (h.cmd == cmd_push)) [
    | inl push ↦ rw push (
        handle_push-Safe regular (pushed conv h body) p
          (omega (arith, length-take h.length_field body)) v)
    | inr other ↦ elim (Bool-cases (h.cmd == cmd_ack)) [
      | inl ack ↦ rw (other, ack) (handle_ack-Safe h p v)
      | inr neither ↦ elim (Bool-cases (h.cmd == cmd_wask)) [
        | inl wask ↦ rw (other, neither, wask) (handle_wask-Safe p v)
        | inr wins ↦ rw (other, neither, wins) v
      ]
    ]
  ]

  -- A round either refuses the packet, or leaves fewer bytes of it.
  abbrev SafeRound : List ℕ → Round → Type 0
  SafeRound packet (stop code) = Unit {0}
  SafeRound packet (next rest p) = SafePass p × (length rest + overhead ≤ length packet)

  handle_segment-Safe :
      (regular : Bool) (conv : ℕ) (h : Header) (body packet : List ℕ) (p : Pass)
      → length body + overhead ≡ length packet
      → length body ≤ mtu_limit
      → SafePass p
      → Returns (handle_segment regular conv h body p) (SafeRound packet)
  unfolding handle_segment count_segment
  handle_segment-Safe regular conv h body packet p e small v =
      elim (Bool-cases (ltb (length body) h.length_field)) [
        | inl short ↦ rw short tt
        | inr whole ↦ elim (Bool-cases (is_command h.cmd)) [
          | inr unknown ↦ rw (whole, unknown) tt
          | inl known ↦
              rw (whole, known)
                (Returns-bind (dispatch regular conv h body (take_header regular h p)) _ SafePass _
                  (dispatch-Safe regular conv h body _ small (take_header-Safe regular h p v))
                  λ p' v'. (v', omega (arith, length-drop h.length_field body)))
        ]
      ]

  read_segment-Safe :
      (regular : Bool) (packet : List ℕ) (p : Pass)
      → overhead ≤ length packet
      → length packet ≤ mtu_limit + overhead
      → SafePass p
      → Returns (read_segment regular packet p) (SafeRound packet)
  unfolding read_segment
  read_segment-Safe regular packet p lo hi v =
      Returns-bind (decode_uint32 packet) _ (λ x. length x.1 + 4 ≡ length packet) _
        (decode_uint32-Reads packet (omega arith))
        λ (conv, packet') h'. elim (Bool-cases (conv == p.rudp.conv)) [
          | inr foreign ↦ rw foreign tt
          | inl own ↦ rw own (
              Returns-bind (decode_fields packet') _ (λ x. length x.1 + 20 ≡ length packet') _
                (decode_fields-Reads packet' (omega arith))
                λ (h, body) hb.
                  handle_segment-Safe regular conv h body packet p (omega arith) (omega arith) v)
        ]

  abbrev pub SafeEnd : Ended → Type 0
  SafeEnd (returned code r w) = Safe r w
  SafeEnd (all_read p) = SafePass p

  -- The fuel is enough: as many rounds as bytes.
  pub input_loop-Safe :
      (regular : Bool) (fuel : ℕ) (packet : List ℕ) (p : Pass)
      → length packet ≤ fuel
      → length packet ≤ mtu_limit + overhead
      → SafePass p
      → Returns (input_loop regular fuel packet p) SafeEnd
  unfolding input_loop go_on
  input_loop-Safe regular zero packet p enough small v =
      rw (lt→ltb (length packet) overhead (omega arith)) v
  input_loop-Safe regular (suc fuel) packet p enough small v =
      elim (Bool-cases (ltb (length packet) overhead)) [
        | inl over ↦ rw over v
        | inr more ↦ rw more (
            Returns-bind (read_segment regular packet p) _ (SafeRound packet) _
              (read_segment-Safe regular packet p (ground arith) small v)
              (elim [
                | stop code ↦ λ h. v
                | next rest p' ↦
                    λ h. input_loop-Safe regular fuel rest p' (omega arith) (omega arith) h.0
              ]))
      ]
