-- ===== src/Rudp/Runs.antt =====
-- Concrete endpoints, packets and clocks for the runs and examples below.
mod Exchange
mod Sending
mod Receiving
mod Settings
use rudp_go.Common.{ℕ, ◌+◌, ◌*◌, List, [], ◌∷◌, ℤ, pos, replicate}
use rudp_go.Snmp.{new_snmp}
use rudp_go.Wire.{Segment, zero_segment, cmd_push}
use rudp_go.Rudp.{Rudp, World}

abbrev clock : ℕ → ℕ
clock k = 1000 + 10 * k

abbrev fresh_world : World
fresh_world = record { clock_reads = 0; packets = []; snmp = new_snmp }

abbrev push : ℕ → ℕ → List ℕ → Segment
push sn frg bytes = record zero_segment {
  conv = 7;
  cmd = cmd_push;
  sn = sn;
  frg = frg;
  payload = bytes;
}

-- Conversation 7 with an MTU of 27: three bytes of data in a segment.
abbrev small : Rudp
small = record {
  conv = 7;
  mtu = 27;
  mss = 3;
  state = 0;
  snd_una = 0;
  snd_nxt = 0;
  rcv_nxt = 0;
  ssthresh = 2;
  rx_rttval = pos 0;
  rx_srtt = pos 0;
  rx_rto = 200;
  rx_min_rto = 100;
  snd_wnd = 32;
  rcv_wnd = 32;
  rmt_wnd = 32;
  cwnd = 0;
  probe = 0;
  interval = 100;
  ts_flush = 100;
  no_delay = 0;
  updated = 0;
  ts_probe = 0;
  probe_wait = 0;
  dead_link = 20;
  incr = 0;
  fast_resend = 0;
  no_cwnd = 1;
  stream = 0;
  snd_queue = [];
  rcv_queue = [];
  snd_buf = [];
  rcv_buf = [];
  ack_list = [];
  buffer = replicate 27 0;
  reserved = 0;
}

-- Segment 4 waits to be read, 5 is next, and 6 came early.
abbrev receiver : Rudp
receiver = record small {
  rcv_nxt = 5;
  rcv_queue = push 4 1 (1 ∷ 2 ∷ []) ∷ [];
  rcv_buf = push 6 0 (5 ∷ []) ∷ [];
}

-- A message in two segments, 4 and 5, and the beginning of the next.
abbrev reader : Rudp
reader = record small {
  rcv_nxt = 7;
  rcv_queue = push 4 1 (1 ∷ 2 ∷ []) ∷ push 5 0 (3 ∷ []) ∷ push 6 1 (9 ∷ []) ∷ [];
}

-- Segments 4, 5 and 6 are in flight.
abbrev sender : Rudp
sender = record small {
  snd_una = 4;
  snd_nxt = 7;
  snd_buf = push 4 0 (1 ∷ []) ∷ push 5 0 (2 ∷ []) ∷ push 6 0 (3 ∷ []) ∷ [];
}

abbrev seven_bytes : List ℕ
seven_bytes = 1 ∷ 2 ∷ 3 ∷ 4 ∷ 5 ∷ 6 ∷ 7 ∷ []
