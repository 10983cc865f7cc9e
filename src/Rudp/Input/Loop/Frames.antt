-- ===== src/Rudp/Input/Loop/Frames.antt =====
-- The loop of `Input` on segments that the encoder has written.
use rudp_go.Common.{
  ℕ, ◌≡◌, refl, ap, ◌∙◌, List, ◌++◌, length, length-append, drop-append, Bool, true, eq→==, ◌+◌,
  ◌≤◌, ◌==◌, ◌||◌, ltb, if◌then◌else◌, Outcome, Returns, append_assoc, take-append, le→not_ltb,
  arith, done, ◌>>=◌, bind_done,
}
use Prim.Native.Nat.{bit_or}
use rudp_go.Wire.{
  Segment, Header, Writer, zero_segment, decode_uint32, decode_fields, bytes32, overhead, cmd_push,
  cmd_ack, cmd_wask, encode_over_head, encode_data,
}
use rudp_go.Rudp.{ask_tell}
use rudp_go.Rudp.Acks.{parse_una, update_snd_una, parse_ack, parse_fast_ack}
use rudp_go.Wire.RoundTrip.{
  Fits, header_bytes, header_of, decode_header, encode-put, put-done, length-header,
}
use rudp_go.Rudp.Input.Loop.{
  Pass, Round, next, handle_push, handle_ack, handle_wask, is_command, take_header, dispatch,
  count_segment, handle_segment, read_segment,
}

-- A data segment has a command that is known.
pub is_push : is_command cmd_push ≡ true
unfolding is_command
is_push = refl

decoded :
    (s : Segment) (rest : List ℕ)
    → Fits s
    → (packet : List ℕ) × (decode_uint32 (header_bytes s ++ rest) ≡ done (s.conv, packet))
      × (decode_fields packet ≡ done (header_of s, rest))
decoded s rest f =
    let ((conv, packet), first, more) =
      bind_done (decode_uint32 (header_bytes s ++ rest)) _ (s.conv, header_of s, rest)
        (decode_header s rest f) in
    let ((h, body), second, last) =
      bind_done (decode_fields packet) _ (s.conv, header_of s, rest) more in
    let same : ◌≡◌ {A = ℕ × Header × List ℕ} (conv, h, body) (s.conv, header_of s, rest) = cc in
    (
      packet,
      first ∙ ap (λ (x : ℕ × Header × List ℕ). done (x.0, packet)) same,
      second ∙ ap (λ (x : ℕ × Header × List ℕ). done (x.1, x.2)) same,
    )

-- One round of the loop on a header and payload as bytes.
read_segment-frame :
    (regular : Bool) (s : Segment) (rest : List ℕ) (p : Pass)
    → Fits s
    → s.conv ≡ p.rudp.conv
    → is_command s.cmd ≡ true
    → read_segment regular (header_bytes s ++ s.payload ++ rest) p ≡ (
        dispatch regular s.conv
          (header_of s)
          (s.payload ++ rest)
          (take_header regular (header_of s) p)
        >>= λ p'. done (next rest (count_segment p')))
unfolding read_segment handle_segment bytes32 is_command dispatch
read_segment-frame regular s rest p f own known =
    let (packet, first, second) = decoded s (s.payload ++ rest) f in
    rw
      (
        first,
        eq→== s.conv p.rudp.conv own,
        second,
        le→not_ltb (length (s.payload ++ rest)) (length s.payload)
            (omega (arith, length-append s.payload rest)),
        known,
        drop-append s.payload rest,
      )
      refl

-- The segment that a push must bring to the receiving side.
abbrev pub received : Segment → Segment
received s = record zero_segment {
  conv = s.conv;
  cmd = s.cmd;
  frg = s.frg;
  wnd = s.wnd;
  ts = s.ts;
  sn = s.sn;
  una = s.una;
  payload = s.payload;
}

-- Every segment brings the peer's window, if the packet is regular, and `una`.
abbrev pub acknowledged : Bool → Segment → Pass → Pass
acknowledged regular s p =
    let x = parse_una s.una (if regular then record p.rudp { rmt_wnd = s.wnd } else p.rudp) in
    record p { rudp = update_snd_una x.1; window_slide = p.window_slide || ltb 0 x.0 }

-- What the command asks for besides.
abbrev pub handled : Bool → Segment → Pass → Outcome Pass
handled regular s p =
    if s.cmd == cmd_push
    then handle_push regular (received s) p
    else if s.cmd == cmd_ack
    then done (record p {
      rudp = parse_fast_ack s.sn s.ts (parse_ack s.sn p.rudp);
      flag = true;
      latest = s.ts;
    })
    else if s.cmd == cmd_wask
    then done (record p { rudp = record p.rudp { probe = bit_or p.rudp.probe ask_tell } })
    else done p

-- The packet's rest, with one segment more counted.
abbrev pub then_next : List ℕ → Pass → Outcome Round
then_next rest p = done (next rest (record p { in_segs = p.in_segs + 1 }))

dispatch-handled :
    (regular : Bool) (s : Segment) (rest : List ℕ) (p : Pass)
    → dispatch regular s.conv (header_of s) (s.payload ++ rest) p ≡ handled regular s p
unfolding dispatch handle_ack handle_wask
dispatch-handled regular s rest p = rw (take-append s.payload rest) refl

-- A segment of this conversation with one of the four commands, written by encodeOverHead and
-- encodeData behind what a buffer holds: a round of the loop that finds those bytes, whatever
-- follows them, takes the segment's window and `una` first; then a push brings the segment with
-- exactly its payload to the receiving side, an acknowledgement marks its number and counts the
-- numbers skipped, a window probe asks for an answer, and a window's size asks for nothing; and the
-- loop goes on with the bytes behind the segment. Condition: the fields fit their types and the
-- buffer has the room.
pub read_segment-encode :
    (regular : Bool) (s : Segment) (w : Writer) (p : Pass)
    → Fits s
    → s.conv ≡ p.rudp.conv
    → is_command s.cmd ≡ true
    → overhead + length s.payload ≤ length w.ptr
    → Returns (encode_over_head s w >>= encode_data s) λ w'.
      (frame : List ℕ) × (w'.written ≡ w.written ++ frame)
      × ((rest : List ℕ)
          → read_segment regular (frame ++ rest) p
            ≡ (handled regular s (acknowledged regular s p) >>= then_next rest))
unfolding take_header count_segment bytes32
read_segment-encode regular s w p f own known room =
    rw
      (
        encode-put s w,
        put-done (header_bytes s ++ s.payload) w
            (omega (arith, length-append (header_bytes s) s.payload, length-header s)),
      )
      (
        header_bytes s ++ s.payload,
        refl,
        λ rest. rw append_assoc (
            read_segment-frame regular s rest p f own known
            ∙ ap (λ m. m >>= then_next rest)
                (dispatch-handled regular s rest (acknowledged regular s p))),
      )
