-- ===== src/Wire/Runs.antt =====
-- The codec on a concrete segment.
use rudp_go.Common.{ℕ, List, [], ◌∷◌, ◌++◌, ◌≡◌, length, Returns, arith, done, replicate, ◌>>=◌}
use rudp_go.Wire.{Segment, zero_segment, Writer, encode_over_head, encode_data, cmd_push}
use rudp_go.Wire.RoundTrip.{decode_segment, header_of, decode-encode}

abbrev hello : Segment
hello = record zero_segment {
  conv = 7;
  cmd = cmd_push;
  wnd = 300;
  ts = 70000;
  sn = 5;
  una = 4;
  payload = 104 ∷ 105 ∷ [];
}

abbrev empty_packet : Writer
empty_packet = record { written = []; ptr = replicate 30 0 }

decode-encode_example : Returns (encode_over_head hello empty_packet >>= encode_data hello) λ w'.
    (frame : List ℕ) × (w'.written ≡ [] ++ frame)
    × (length frame ≡ 26)
    × ((rest : List ℕ)
        → decode_segment (frame ++ rest) ≡ done (7, header_of hello, hello.payload ++ rest))
decode-encode_example = decode-encode hello empty_packet (omega arith) (omega arith)
