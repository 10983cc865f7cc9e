-- ===== src/Rudp.antt =====
-- The state of rudp.go: the structure RUDP, what it shares with the rest of the process, and the
-- helpers on numbers. The modules below hold its operations.
pub mod Config
pub mod Send
pub mod Acks
pub mod Rto
pub mod Delivery
pub mod Flush
pub mod Input
pub mod Calls
pub mod Sized
pub mod Numbers
pub mod Receiving
mod Runs
use rudp_go.Common.{
  ℕ, ◌+◌, ◌-◌, ◌%◌, ◌^◌, List, [], ◌∷◌, ◌++◌, Outcome, done, panic, length, drop, replicate, leb,
  ltb, if◌then◌else◌, ℤ, pos, to_int32, sub32,
}
use rudp_go.Snmp.{Snmp}
use rudp_go.Wire.{Segment, overhead}

abbrev pub rto_ndl : ℕ
rto_ndl = 30

abbrev pub rto_min : ℕ
rto_min = 100

abbrev pub rto_def : ℕ
rto_def = 200

abbrev pub rto_max : ℕ
rto_max = 60000

abbrev pub ask_send : ℕ
ask_send = 1

abbrev pub ask_tell : ℕ
ask_tell = 2

abbrev pub wnd_snd : ℕ
wnd_snd = 32

abbrev pub wnd_rcv : ℕ
wnd_rcv = 32

abbrev pub mtu_def : ℕ
mtu_def = 1400

abbrev pub flush_interval : ℕ
flush_interval = 100

abbrev pub deadlink : ℕ
deadlink = 20

abbrev pub thresh_init : ℕ
thresh_init = 2

abbrev pub thresh_min : ℕ
thresh_min = 2

abbrev pub probe_init : ℕ
probe_init = 7000

abbrev pub probe_min : ℕ
probe_min = 7000

abbrev pub probe_limit : ℕ
probe_limit = 120000

-- sess.go: the capacity of the pooled buffers `xmitBuf`.
abbrev pub mtu_limit : ℕ
mtu_limit = 1500

pub record AckItem : Type 0 where
  pub sn : ℕ
  pub ts : ℕ

-- `RUDP`, without its callback. uint32 fields are numbers below 2 ^ 32; `rx_rttval` and `rx_srtt`
-- are int32 as integers; the int32 `fast_resend`, `no_cwnd` and `stream` are bit patterns.
pub record Rudp : Type 0 where
  pub conv : ℕ
  pub mtu : ℕ
  pub mss : ℕ
  pub state : ℕ
  pub snd_una : ℕ
  pub snd_nxt : ℕ
  pub rcv_nxt : ℕ
  pub ssthresh : ℕ
  pub rx_rttval : ℤ
  pub rx_srtt : ℤ
  pub rx_rto : ℕ
  pub rx_min_rto : ℕ
  pub snd_wnd : ℕ
  pub rcv_wnd : ℕ
  pub rmt_wnd : ℕ
  pub cwnd : ℕ
  pub probe : ℕ
  pub interval : ℕ
  pub ts_flush : ℕ
  pub no_delay : ℕ
  pub updated : ℕ
  pub ts_probe : ℕ
  pub probe_wait : ℕ
  pub dead_link : ℕ
  pub incr : ℕ
  pub fast_resend : ℕ
  pub no_cwnd : ℕ
  pub stream : ℕ
  pub snd_queue : List Segment
  pub rcv_queue : List Segment
  pub snd_buf : List Segment
  pub rcv_buf : List Segment
  pub ack_list : List AckItem
  pub buffer : List ℕ
  pub reserved : ℕ

unfoldable pub new_rudp : ℕ → Rudp
new_rudp conv = record {
  conv = conv;
  mtu = mtu_def;
  mss = mtu_def - overhead;
  state = 0;
  snd_una = 0;
  snd_nxt = 0;
  rcv_nxt = 0;
  ssthresh = thresh_init;
  rx_rttval = pos 0;
  rx_srtt = pos 0;
  rx_rto = rto_def;
  rx_min_rto = rto_min;
  snd_wnd = wnd_snd;
  rcv_wnd = wnd_rcv;
  rmt_wnd = wnd_rcv;
  cwnd = 0;
  probe = 0;
  interval = flush_interval;
  ts_flush = flush_interval;
  no_delay = 0;
  updated = 0;
  ts_probe = 0;
  probe_wait = 0;
  dead_link = deadlink;
  incr = 0;
  fast_resend = 0;
  no_cwnd = 0;
  stream = 0;
  snd_queue = [];
  rcv_queue = [];
  snd_buf = [];
  rcv_buf = [];
  ack_list = [];
  buffer = replicate mtu_def 0;
  reserved = 0;
}

-- What RUDP shares with the process: how often the clock was read, the packets handed to the
-- output callback (each `buf[:size]`, all that a callback reads), oldest first, and the counters.
pub record World : Type 0 where
  pub clock_reads : ℕ
  pub packets : List (List ℕ)
  pub snmp : Snmp

-- `currentMs`: the clock gives the milliseconds since the start at each of its readings.
abbrev pub current_ms : (ℕ → ℕ) → World → ℕ × World
current_ms clock w = (clock w.clock_reads % 2 ^ 32, record w { clock_reads = w.clock_reads + 1 })

abbrev pub time_diff : ℕ → ℕ → ℤ
time_diff later earlier = to_int32 (sub32 later earlier)

-- `min`, `max` and `bound` of rudp.go.
abbrev pub min : ℕ → ℕ → ℕ
min a b = if leb a b then a else b

abbrev pub max : ℕ → ℕ → ℕ
max a b = if leb b a then a else b

abbrev pub bound : ℕ → ℕ → ℕ → ℕ
bound low mid high = min (max low mid) high

-- `newSegment`: a slice of a pooled buffer, which holds `mtu_limit` bytes.
abbrev pub new_segment : List ℕ → Outcome (List ℕ)
new_segment bytes = if leb (length bytes) mtu_limit then done bytes else panic

-- `removeFront`: both branches of the source leave the elements behind the first `count`.
abbrev pub remove_front : List Segment → ℕ → List Segment
remove_front buf count = drop count buf

pub unused_wnd : Rudp → ℕ
unused_wnd r =
    if ltb (length r.rcv_queue) r.rcv_wnd then (r.rcv_wnd - length r.rcv_queue) % 2 ^ 16 else 0

pub wait_snd : Rudp → ℕ
wait_snd r = length r.snd_buf + length r.snd_queue
