-- ===== src/Snmp.antt =====
-- snmp.go: the counters of the process. Each is a uint64 that wraps.
use Prim.Native.String.{String}
use rudp_go.Common.{ℕ, add64, List, [], ◌∷◌}

pub record Snmp : Type 0 where
  pub bytes_sent : ℕ
  pub bytes_received : ℕ
  pub max_conn : ℕ
  pub active_opens : ℕ
  pub passive_opens : ℕ
  pub curr_estab : ℕ
  pub in_errs : ℕ
  pub in_csum_errors : ℕ
  pub rudp_in_errors : ℕ
  pub in_pkts : ℕ
  pub out_pkts : ℕ
  pub in_segs : ℕ
  pub out_segs : ℕ
  pub in_bytes : ℕ
  pub out_bytes : ℕ
  pub retrans_segs : ℕ
  pub fast_retrans_segs : ℕ
  pub early_retrans_segs : ℕ
  pub lost_segs : ℕ
  pub repeat_segs : ℕ
  pub fec_recovered : ℕ
  pub fec_errs : ℕ
  pub fec_parity_shards : ℕ
  pub fec_short_shards : ℕ

-- `new(Snmp)`: all counters at 0.
abbrev pub new_snmp : Snmp
new_snmp = record {
  bytes_sent = 0;
  bytes_received = 0;
  max_conn = 0;
  active_opens = 0;
  passive_opens = 0;
  curr_estab = 0;
  in_errs = 0;
  in_csum_errors = 0;
  rudp_in_errors = 0;
  in_pkts = 0;
  out_pkts = 0;
  in_segs = 0;
  out_segs = 0;
  in_bytes = 0;
  out_bytes = 0;
  retrans_segs = 0;
  fast_retrans_segs = 0;
  early_retrans_segs = 0;
  lost_segs = 0;
  repeat_segs = 0;
  fec_recovered = 0;
  fec_errs = 0;
  fec_parity_shards = 0;
  fec_short_shards = 0;
}

-- `atomic.AddUint64` on the counters that RUDP itself moves.
abbrev pub add_in_segs : ℕ → Snmp → Snmp
add_in_segs n s = record s { in_segs = add64 s.in_segs n }

abbrev pub add_out_segs : ℕ → Snmp → Snmp
add_out_segs n s = record s { out_segs = add64 s.out_segs n }

abbrev pub add_repeat_segs : ℕ → Snmp → Snmp
add_repeat_segs n s = record s { repeat_segs = add64 s.repeat_segs n }

-- The names of the columns.
abbrev pub header : List String
header =
    "BytesSent" ∷ "BytesReceived" ∷ "MaxConn" ∷ "ActiveOpens" ∷ "PassiveOpens" ∷ "CurrEstab"
    ∷ "InErrs" ∷ "InCsumErrors" ∷ "rudpInErrors" ∷ "InPkts" ∷ "OutPkts" ∷ "InSegs" ∷ "OutSegs"
    ∷ "InBytes" ∷ "OutBytes" ∷ "RetransSegs" ∷ "FastRetransSegs" ∷ "EarlyRetransSegs" ∷ "LostSegs"
    ∷ "RepeatSegs" ∷ "FECParityShards" ∷ "FECErrs" ∷ "FECRecovered" ∷ "FECShortShards" ∷ []

-- The counters in the order of the columns, each loaded once.
abbrev pub copy : Snmp → Snmp
copy s = record {
  bytes_sent = s.bytes_sent;
  bytes_received = s.bytes_received;
  max_conn = s.max_conn;
  active_opens = s.active_opens;
  passive_opens = s.passive_opens;
  curr_estab = s.curr_estab;
  in_errs = s.in_errs;
  in_csum_errors = s.in_csum_errors;
  rudp_in_errors = s.rudp_in_errors;
  in_pkts = s.in_pkts;
  out_pkts = s.out_pkts;
  in_segs = s.in_segs;
  out_segs = s.out_segs;
  in_bytes = s.in_bytes;
  out_bytes = s.out_bytes;
  retrans_segs = s.retrans_segs;
  fast_retrans_segs = s.fast_retrans_segs;
  early_retrans_segs = s.early_retrans_segs;
  lost_segs = s.lost_segs;
  repeat_segs = s.repeat_segs;
  fec_parity_shards = s.fec_parity_shards;
  fec_errs = s.fec_errs;
  fec_recovered = s.fec_recovered;
  fec_short_shards = s.fec_short_shards;
}

-- The numbers that `ToSlice` prints.
abbrev pub to_slice : Snmp → List ℕ
to_slice s =
    let snmp = copy s in
    snmp.bytes_sent ∷ snmp.bytes_received ∷ snmp.max_conn ∷ snmp.active_opens ∷ snmp.passive_opens
    ∷ snmp.curr_estab ∷ snmp.in_errs ∷ snmp.in_csum_errors ∷ snmp.rudp_in_errors ∷ snmp.in_pkts
    ∷ snmp.out_pkts ∷ snmp.in_segs ∷ snmp.out_segs ∷ snmp.in_bytes ∷ snmp.out_bytes
    ∷ snmp.retrans_segs ∷ snmp.fast_retrans_segs ∷ snmp.early_retrans_segs ∷ snmp.lost_segs
    ∷ snmp.repeat_segs ∷ snmp.fec_parity_shards ∷ snmp.fec_errs ∷ snmp.fec_recovered
    ∷ snmp.fec_short_shards ∷ []

abbrev pub reset : Snmp → Snmp
reset s = record s {
  bytes_sent = 0;
  bytes_received = 0;
  max_conn = 0;
  active_opens = 0;
  passive_opens = 0;
  curr_estab = 0;
  in_errs = 0;
  in_csum_errors = 0;
  rudp_in_errors = 0;
  in_pkts = 0;
  out_pkts = 0;
  in_segs = 0;
  out_segs = 0;
  in_bytes = 0;
  out_bytes = 0;
  retrans_segs = 0;
  fast_retrans_segs = 0;
  early_retrans_segs = 0;
  lost_segs = 0;
  repeat_segs = 0;
  fec_parity_shards = 0;
  fec_errs = 0;
  fec_recovered = 0;
  fec_short_shards = 0;
}
