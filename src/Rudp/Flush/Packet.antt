-- ===== src/Rudp/Flush/Packet.antt =====
-- The packet that `flush` fills: `makeSpace`, `flushBuffer` and the writes to `ptr`.
pub mod Bounds
use rudp_go.Common.{
  ℕ, ◌+◌, List, [], ◌∷◌, ◌++◌, length, take, drop, ltb, leb, if◌then◌else◌, Outcome, done, panic,
  ◌>>=◌,
}
use rudp_go.Snmp.{add_out_segs}
use rudp_go.Wire.{Segment, Writer, encode_over_head, encode_data}
use rudp_go.Rudp.{Rudp, World}

pub record Out : Type 0 where
  pub writer : Writer
  pub world : World

-- `ptr = buffer[rudp.reserved:]`
pub rewind : Rudp → List ℕ → Outcome Writer
rewind r buffer =
    if leb r.reserved (length buffer)
    then done (record { written = take r.reserved buffer; ptr = drop r.reserved buffer })
    else panic

pub start_out : Rudp → World → Outcome Out
unfolding rewind
start_out r w = do writer ← rewind r r.buffer; done (record { writer = writer; world = w })

-- `rudp.output(buffer, size)`
abbrev pub output : Out → World
output o = record o.world { packets = o.world.packets ++ o.writer.written ∷ [] }

pub make_space : Rudp → ℕ → Out → Outcome Out
unfolding rewind
make_space r space o =
    if leb r.mtu (length o.writer.written + space)
    then (do
      writer ← rewind r (o.writer.written ++ o.writer.ptr)
      done (record { writer = writer; world = output o }))
    else done o

pub flush_buffer : Rudp → Out → Out
flush_buffer r o =
    if ltb r.reserved (length o.writer.written) then record o { world = output o } else o

-- `encodeOverHead`, which counts OutSegs.
pub encode_header : Segment → Out → Outcome Out
encode_header seg o = do
  writer ← encode_over_head seg o.writer
  done (record { writer = writer; world = record o.world { snmp = add_out_segs 1 o.world.snmp } })

pub encode_segment : Segment → Out → Outcome Out
unfolding encode_header
encode_segment seg o = do
  o ← encode_header seg o
  writer ← encode_data seg o.writer
  done (record o { writer = writer })
