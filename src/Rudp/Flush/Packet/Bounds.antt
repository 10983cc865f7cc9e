-- ===== src/Rudp/Flush/Packet/Bounds.antt =====
-- The bounds of the packet buffer of `flush`.
use rudp_go.Common.{
  panic, ◌>>=◌, ◌<◌, ℕ, ◌+◌, ◌≤◌, ◌≡◌, List, [], ◌∷◌, ◌++◌, length, take, drop, All, All-append,
  arith, done, Returns, Returns-bind, ◌∙◌, length-append, length-take, length-drop, le→leb,
  lt→not_leb, le→not_ltb, lt→ltb,
}
use native.Mathlib.Decide.{dec_le, dec_lt}
use rudp_go.Wire.{Segment, overhead, put, encode_data}
use rudp_go.Wire.RoundTrip.{
  put-panic, header_bytes, put-done, encode_over_head-put, encode_data-put, length-header,
}
use rudp_go.Rudp.{Rudp, World}
use rudp_go.Rudp.Sized.{Sized}
use rudp_go.Rudp.Flush.Packet.{
  Out, rewind, start_out, make_space, flush_buffer, output, encode_header, encode_segment,
}

-- No packet so far is longer than `mtu`.
abbrev pub Within : ℕ → World → Type 0
Within mtu w = All (λ (p : List ℕ). length p ≤ mtu) w.packets

-- The buffer has its size, the packet starts behind the reserved bytes, and `space` bytes are left.
pub record Sound (r : Rudp) (space : ℕ) (o : Out) : Type 0 where
  pub size : length o.writer.written + length o.writer.ptr ≡ r.mtu
  pub start : r.reserved ≤ length o.writer.written
  pub free : space ≤ length o.writer.ptr
  pub within : Within r.mtu o.world

-- A packet that goes out is one more within the limit.
output-Within : (r : Rudp) {space : ℕ} (o : Out) → Sound r space o → Within r.mtu (output o)
output-Within r o v =
    All-append (λ (p : List ℕ). length p ≤ r.mtu) o.world.packets (o.writer.written ∷ []) v.within
      (omega arith, tt)

rewound :
    (r : Rudp) (buffer : List ℕ) (w : World) (space : ℕ)
    → length buffer ≡ r.mtu
    → r.reserved + space ≤ r.mtu
    → Within r.mtu w
    → Sound r space (record {
      writer = record { written = take r.reserved buffer; ptr = drop r.reserved buffer };
      world = w;
    })
rewound r buffer w space e h within = record {
  size = omega (arith, length-take r.reserved buffer, length-drop r.reserved buffer);
  start = omega (arith, length-take r.reserved buffer);
  free = omega (arith, length-drop r.reserved buffer);
  within = within;
}

rewind-done :
    (r : Rudp) (buffer : List ℕ)
    → r.reserved ≤ length buffer
    → rewind r buffer
      ≡ done (record { written = take r.reserved buffer; ptr = drop r.reserved buffer })
unfolding rewind
rewind-done r buffer h = rw (le→leb _ _ h)

pub start_out-Sound :
    (r : Rudp) (w : World) → Sized r → Within r.mtu w → Returns (start_out r w) (Sound r 0)
unfolding start_out
start_out-Sound r w v h =
    rw (rewind-done r r.buffer (omega arith)) (rewound r r.buffer w 0 v.stored (omega arith) h)

pub make_space-Sound :
    (r : Rudp) (space : ℕ) (o : Out)
    → r.reserved + space ≤ r.mtu
    → Sound r 0 o
    → Returns (make_space r space o) (Sound r space)
unfolding make_space
make_space-Sound r space o h v = elim (dec_le r.mtu (length o.writer.written + space)) [
  | no room ↦
      rw (lt→not_leb r.mtu (length o.writer.written + space) (omega arith))
        (record { size = v.size; start = v.start; free = omega arith; within = v.within })
  | yes full ↦
      rw (le→leb _ _ full, rewind-done r (o.writer.written ++ o.writer.ptr) (omega (arith, whole)))
        (rewound r (o.writer.written ++ o.writer.ptr) (output o) space (whole ∙ v.size) h
          (output-Within r o v))
]
  where
    whole :
        length (o.writer.written ++ o.writer.ptr) ≡ length o.writer.written + length o.writer.ptr
    whole = length-append o.writer.written o.writer.ptr

-- A write of as many bytes as are free.
put-Sound :
    (r : Rudp) (bytes : List ℕ) (k : ℕ) (o : Out) (w : World)
    → Sound r (length bytes + k) o
    → Within r.mtu w
    → Returns (put bytes o.writer) (λ writer. Sound r k (record { writer = writer; world = w }))
put-Sound r bytes k o w v within = rw (put-done bytes o.writer (omega arith)) (record {
  size =
      omega (arith, length-append o.writer.written bytes, length-drop (length bytes) o.writer.ptr);
  start = omega (arith, length-append o.writer.written bytes);
  free = omega (arith, length-drop (length bytes) o.writer.ptr);
  within = within;
})

pub encode_header-Sound :
    (r : Rudp) (k : ℕ) (seg : Segment) (o : Out)
    → Sound r (overhead + k) o
    → Returns (encode_header seg o) (Sound r k)
unfolding encode_header
encode_header-Sound r k seg o v = rw (encode_over_head-put seg o.writer) (
    Returns-bind (put (header_bytes seg) o.writer) _
      (λ writer. Sound r k (record { writer = writer; world = o.world })) _
      (put-Sound r (header_bytes seg) k o o.world (rw (length-header seg) v) v.within)
      (λ writer s. record { size = s.size; start = s.start; free = s.free; within = s.within }))

pub encode_segment-Sound :
    (r : Rudp) (seg : Segment) (o : Out)
    → Sound r (overhead + length seg.payload) o
    → Returns (encode_segment seg o) (Sound r 0)
unfolding encode_segment
encode_segment-Sound r seg o v =
    Returns-bind (encode_header seg o) _ (Sound r (length seg.payload)) _
      (encode_header-Sound r (length seg.payload) seg o v)
      λ o' s.
        Returns-bind (encode_data seg o'.writer) _
          (λ writer. Sound r 0 (record { writer = writer; world = o'.world })) _
          (rw (encode_data-put seg o'.writer) (
            put-Sound r seg.payload 0 o' o'.world
              (record { size = s.size; start = s.start; free = omega arith; within = s.within })
              s.within))
          (λ writer t. t)

pub flush_buffer-Within : (r : Rudp) (o : Out) → Sound r 0 o → Within r.mtu (flush_buffer r o).world
unfolding flush_buffer
flush_buffer-Within r o v = elim (dec_lt r.reserved (length o.writer.written)) [
  | yes more ↦ rw (lt→ltb _ _ more) (output-Within r o v)
  | no none ↦ rw (le→not_ltb r.reserved (length o.writer.written) (omega arith)) v.within
]

-- The last write keeps the buffer's size.
pub flush_buffer-size :
    (r : Rudp) (o : Out)
    → length ((flush_buffer r o).writer.written ++ (flush_buffer r o).writer.ptr)
      ≡ length o.writer.written + length o.writer.ptr
unfolding flush_buffer
flush_buffer-size r o = ground (arith, length-append o.writer.written o.writer.ptr)

-- A segment that does not fit what is left of the buffer.
pub encode_segment-panics :
    (seg : Segment) (o : Out)
    → length o.writer.ptr < overhead + length seg.payload
    → encode_segment seg o ≡ panic
unfolding encode_segment encode_header
encode_segment-panics seg o h = elim (dec_le overhead (length o.writer.ptr)) [
  | no short ↦ rw (
    encode_over_head-put seg o.writer,
    put-panic (header_bytes seg) o.writer (omega (arith, length-header seg)),
  )
  | yes header ↦ rw (
    encode_over_head-put seg o.writer,
    put-done (header_bytes seg) o.writer (omega (arith, length-header seg)),
    encode_data-put,
    put-panic seg.payload
        (record {
          written = o.writer.written ++ header_bytes seg;
          ptr = drop (length (header_bytes seg)) o.writer.ptr;
        })
        (omega (arith, length-header seg, length-drop (length (header_bytes seg)) o.writer.ptr)),
  )
]

-- A segment that does not fit the MTU, wherever the packet stands.
pub oversize-panics :
    (r : Rudp) (seg : Segment) (o : Out)
    → length o.writer.written + length o.writer.ptr ≡ r.mtu
    → r.reserved ≤ length o.writer.written
    → r.mtu < r.reserved + overhead + length seg.payload
    → (make_space r (overhead + length seg.payload) o >>= encode_segment seg) ≡ panic
unfolding make_space
oversize-panics r seg o size start large =
    elim (dec_le r.mtu (length o.writer.written + (overhead + length seg.payload))) [
      | no room ↦ absurd (omega arith)
      | yes full ↦
          rw
            (
              le→leb _ _ full,
              rewind-done r (o.writer.written ++ o.writer.ptr)
                  (omega (arith, length-append o.writer.written o.writer.ptr)),
            )
            (encode_segment-panics seg _ (
              omega (
                arith,
                length-append o.writer.written o.writer.ptr,
                length-drop r.reserved (o.writer.written ++ o.writer.ptr),
              )))
    ]
