-- ===== src/Wire/RoundTrip.antt =====
-- What the codec writes, and what is read of it.
use rudp_go.Common.{
  ℕ, ◌+◌, ◌*◌, ◌/◌, ◌%◌, ◌^◌, ◌<◌, ◌≤◌, ◌≡◌, refl, ap, ◌∙◌, List, [], ◌∷◌, ◌++◌, append_assoc,
  Outcome, done, panic, length, drop, arith, Returns, le→leb, ◌>>=◌, length-drop, length-append,
  drop-drop, lt→not_leb,
}
use mathlib.Core.Path.{fun_ext}
use native.Mathlib.Decide.{dec_le}
use rudp_go.Wire.{
  overhead, Segment, Writer, put, encode_uint8, encode_uint16, bytes32, encode_uint32,
  encode_over_head, encode_data, decode_uint8, decode_uint16, decode_uint32, Header, decode_fields,
}

-- A segment whose fields fit their Go types.
pub record Fits (s : Segment) : Type 0 where
  pub conv : s.conv < 2 ^ 32
  pub cmd : s.cmd < 256
  pub frg : s.frg < 256
  pub wnd : s.wnd < 2 ^ 16
  pub ts : s.ts < 2 ^ 32
  pub sn : s.sn < 2 ^ 32
  pub una : s.una < 2 ^ 32
  pub len : length s.payload < 2 ^ 32

-- The 24 bytes of a header.
abbrev pub header_bytes : Segment → List ℕ
header_bytes s =
    bytes32 s.conv
    ++ ((s.cmd ∷ [])
        ++ ((s.frg ∷ [])
            ++ ((s.wnd % 256 ∷ s.wnd / 256 % 256 ∷ [])
                ++ (bytes32 s.ts
                    ++ (bytes32 s.sn ++ (bytes32 s.una ++ bytes32 (length s.payload % 2 ^ 32)))))))

pub put-done :
    (bytes : List ℕ) (w : Writer)
    → length bytes ≤ length w.ptr
    → put bytes w ≡ done (record { written = w.written ++ bytes; ptr = drop (length bytes) w.ptr })
unfolding put
put-done bytes w h = rw (le→leb _ _ h)

pub put-panic : (bytes : List ℕ) (w : Writer) → length w.ptr < length bytes → put bytes w ≡ panic
unfolding put
put-panic bytes w h = rw (lt→not_leb _ _ h)

-- Two writes are one write of the bytes together.
put-put : (a b : List ℕ) (w : Writer) → (put a w >>= put b) ≡ put (a ++ b) w
put-put a b w = elim (dec_le (length a) (length w.ptr)) [
  | no short ↦
      rw (put-panic a w (omega arith), put-panic (a ++ b) w (omega (arith, length-append a b)))
  | yes fits ↦ elim (dec_le (length a + length b) (length w.ptr)) [
    | no short ↦
        rw (put-done a w fits, put-panic (a ++ b) w (omega (arith, length-append a b)))
          (put-panic b _ (omega (arith, length-drop (length a) w.ptr)))
    | yes both ↦
        rw (put-done a w fits, put-done (a ++ b) w (omega (arith, length-append a b)))
          (put-done b _ (omega (arith, length-drop (length a) w.ptr)) ∙ ap done same)
  ]
]
  where
    same :
        ◌≡◌ {A = Writer}
          (record {
            written = (w.written ++ a) ++ b;
            ptr = drop (length b) (drop (length a) w.ptr);
          })
          (record { written = w.written ++ (a ++ b); ptr = drop (length (a ++ b)) w.ptr })
    same = rw (append_assoc, drop-drop, length-append a b)

put-then :
    (a b : List ℕ) (k : Writer → Outcome Writer)
    → ((v : Writer) → k v ≡ put b v)
    → (w : Writer) → (put a w >>= k) ≡ put (a ++ b) w
put-then a b k e w = rw (fun_ext e) (put-put a b w)

-- A header is one write of its bytes.
pub encode_over_head-put :
    (s : Segment) (w : Writer) → encode_over_head s w ≡ put (header_bytes s) w
unfolding encode_over_head encode_uint8 encode_uint16 encode_uint32
encode_over_head-put s = put-then (bytes32 s.conv) _ _ (
    put-then (s.cmd ∷ []) _ _ (
      put-then (s.frg ∷ []) _ _ (
        put-then (s.wnd % 256 ∷ s.wnd / 256 % 256 ∷ []) _ _ (
          put-then (bytes32 s.ts) _ _
            (put-then (bytes32 s.sn) _ _ (put-then (bytes32 s.una) _ _ (λ v. refl)))))))

pub encode_data-put : (s : Segment) (w : Writer) → encode_data s w ≡ put s.payload w
unfolding encode_data
encode_data-put s w = refl

pub length-header : (s : Segment) → length (header_bytes s) ≡ overhead
unfolding bytes32
length-header s = refl

pub encode-put :
    (s : Segment) (w : Writer)
    → (encode_over_head s w >>= encode_data s) ≡ put (header_bytes s ++ s.payload) w
unfolding encode_data
encode-put s w = rw (encode_over_head-put s w) (put-put (header_bytes s) s.payload w)

-- What `Input` reads off the front of a packet.
abbrev pub decode_segment : List ℕ → Outcome (ℕ × Header × List ℕ)
decode_segment bytes = do
  (conv, bytes) ← decode_uint32 bytes
  (h, body) ← decode_fields bytes
  done (conv, h, body)

abbrev pub header_of : Segment → Header
header_of s = record {
  cmd = s.cmd;
  frg = s.frg;
  wnd = s.wnd;
  ts = s.ts;
  sn = s.sn;
  una = s.una;
  length_field = length s.payload;
}

bytes32_value :
    (u : ℕ)
    → u < 2 ^ 32
    → u % 256 + u / 2 ^ 8 % 256 * 2 ^ 8 + u / 2 ^ 16 % 256 * 2 ^ 16 + u / 2 ^ 24 % 256 * 2 ^ 24 ≡ u
bytes32_value u h = omega arith

decode_uint32-bytes32 :
    (u : ℕ) (rest : List ℕ) → u < 2 ^ 32 → decode_uint32 (bytes32 u ++ rest) ≡ done (u, rest)
unfolding decode_uint32 bytes32
decode_uint32-bytes32 u rest h = rw (bytes32_value u h)

length-overhead : (s : Segment) → length (header_bytes s ++ s.payload) ≡ overhead + length s.payload
unfolding bytes32
length-overhead s = omega arith

pub decode_header :
    (s : Segment) (rest : List ℕ)
    → Fits s
    → decode_segment (header_bytes s ++ rest) ≡ done (s.conv, header_of s, rest)
unfolding decode_fields decode_uint8 decode_uint16
decode_header s rest f =
    simp
      (
        append_assoc,
        decode_uint32-bytes32 s.conv _ f.conv,
        decode_uint32-bytes32 s.ts _ f.ts,
        decode_uint32-bytes32 s.sn _ f.sn,
        decode_uint32-bytes32 s.una _ f.una,
        decode_uint32-bytes32 (length s.payload % 2 ^ 32) _ (omega arith),
      )
      (ground arith)

-- A segment written behind what a buffer holds adds 24 bytes of header and its payload, and the
-- decoder reads conversation, fields and payload back off those bytes, whatever follows them.
-- Condition: the fields fit their types and the buffer has the room.
pub decode-encode :
    (s : Segment) (w : Writer)
    → Fits s
    → overhead + length s.payload ≤ length w.ptr
    → Returns (encode_over_head s w >>= encode_data s) λ w'.
      (frame : List ℕ) × (w'.written ≡ w.written ++ frame)
      × (length frame ≡ overhead + length s.payload)
      × ((rest : List ℕ)
          → decode_segment (frame ++ rest) ≡ done (s.conv, header_of s, s.payload ++ rest))
decode-encode s w f h =
    rw (encode-put s w, put-done (header_bytes s ++ s.payload) w (omega (arith, size)))
      (
        header_bytes s ++ s.payload,
        refl,
        size,
        λ rest. rw append_assoc (decode_header s (s.payload ++ rest) f),
      )
  where
    size : length (header_bytes s ++ s.payload) ≡ overhead + length s.payload
    size = length-overhead s
