-- ===== src/Wire.antt =====
-- The wire format of rudp.go: the segment, its header in 24 little-endian bytes, and the codec
-- functions. A byte is a number below 256.
pub mod RoundTrip
pub mod Reading
mod Runs
use rudp_go.Common.{
  ℕ, ◌+◌, ◌*◌, ◌/◌, ◌%◌, ◌^◌, ◌<◌, List, [], ◌∷◌, ◌++◌, Outcome, done, panic, ◌>>=◌, length, drop,
  leb, if◌then◌else◌,
}

abbrev pub overhead : ℕ
overhead = 24

abbrev pub cmd_push : ℕ
cmd_push = 81

abbrev pub cmd_ack : ℕ
cmd_ack = 82

abbrev pub cmd_wask : ℕ
cmd_wask = 83

abbrev pub cmd_wins : ℕ
cmd_wins = 84

-- `segment`; `payload` is its field `data`, with [] for nil.
pub record Segment : Type 0 where
  pub conv : ℕ
  pub cmd : ℕ
  pub frg : ℕ
  pub wnd : ℕ
  pub ts : ℕ
  pub sn : ℕ
  pub una : ℕ
  pub rto : ℕ
  pub xmit : ℕ
  pub resendts : ℕ
  pub fastack : ℕ
  pub acked : ℕ
  pub payload : List ℕ

-- `var seg segment`
abbrev pub zero_segment : Segment
zero_segment = record {
  conv = 0;
  cmd = 0;
  frg = 0;
  wnd = 0;
  ts = 0;
  sn = 0;
  una = 0;
  rto = 0;
  xmit = 0;
  resendts = 0;
  fastack = 0;
  acked = 0;
  payload = [];
}

-- A buffer that is filled from the front: what the slice `ptr` has passed, and `ptr` itself.
pub record Writer : Type 0 where
  pub written : List ℕ
  pub ptr : List ℕ

-- A write to the front of `ptr`, which moves past it. Too short a slice is an index out of range.
pub put : List ℕ → Writer → Outcome Writer
put bytes w =
    if leb (length bytes) (length w.ptr)
    then done (record { written = w.written ++ bytes; ptr = drop (length bytes) w.ptr })
    else panic

pub encode_uint8 : ℕ → Writer → Outcome Writer
encode_uint8 u = put (u ∷ [])

pub encode_uint16 : ℕ → Writer → Outcome Writer
encode_uint16 u = put (u % 256 ∷ u / 256 % 256 ∷ [])

unfoldable pub bytes32 : ℕ → List ℕ
bytes32 u = u % 256 ∷ u / 2 ^ 8 % 256 ∷ u / 2 ^ 16 % 256 ∷ u / 2 ^ 24 % 256 ∷ []

pub encode_uint32 : ℕ → Writer → Outcome Writer
encode_uint32 u = put (bytes32 u)

-- `encodeOverHead`, without its count of OutSegs, which the flush adds.
pub encode_over_head : Segment → Writer → Outcome Writer
encode_over_head seg w = do
  w ← encode_uint32 seg.conv w
  w ← encode_uint8 seg.cmd w
  w ← encode_uint8 seg.frg w
  w ← encode_uint16 seg.wnd w
  w ← encode_uint32 seg.ts w
  w ← encode_uint32 seg.sn w
  w ← encode_uint32 seg.una w
  encode_uint32 (length seg.payload % 2 ^ 32) w

-- `encodeData`: the slice expression behind the copy fails where the payload does not fit.
pub encode_data : Segment → Writer → Outcome Writer
encode_data seg = put seg.payload

pub decode_uint8 : List ℕ → Outcome (ℕ × List ℕ)
decode_uint8 [] = panic
decode_uint8 (a ∷ rest) = done (a, rest)

pub decode_uint16 : List ℕ → Outcome (ℕ × List ℕ)
decode_uint16 (a ∷ b ∷ rest) = done (a + b * 256, rest)
decode_uint16 _ = panic

pub decode_uint32 : List ℕ → Outcome (ℕ × List ℕ)
decode_uint32 (a ∷ b ∷ c ∷ d ∷ rest) = done (a + b * 2 ^ 8 + c * 2 ^ 16 + d * 2 ^ 24, rest)
decode_uint32 _ = panic

-- The fields behind `conv`, as `Input` reads them.
pub record Header : Type 0 where
  pub cmd : ℕ
  pub frg : ℕ
  pub wnd : ℕ
  pub ts : ℕ
  pub sn : ℕ
  pub una : ℕ
  pub length_field : ℕ

pub decode_fields : List ℕ → Outcome (Header × List ℕ)
decode_fields bytes = do
  (cmd, bytes) ← decode_uint8 bytes
  (frg, bytes) ← decode_uint8 bytes
  (wnd, bytes) ← decode_uint16 bytes
  (ts, bytes) ← decode_uint32 bytes
  (sn, bytes) ← decode_uint32 bytes
  (una, bytes) ← decode_uint32 bytes
  (len, bytes) ← decode_uint32 bytes
  done (
    record { cmd = cmd; frg = frg; wnd = wnd; ts = ts; sn = sn; una = una; length_field = len },
    bytes,
  )
