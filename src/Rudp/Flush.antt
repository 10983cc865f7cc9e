-- ===== src/Rudp/Flush.antt =====
-- `flush` of rudp.go, in the order of the source: acknowledgements, window probes, the move from
-- the send queue to the send buffer, (re)transmission, statistics, congestion control.
pub mod Packet
pub mod Transmit
pub mod Window
pub mod Filling
pub mod Parts
pub mod Safety
pub mod ReceiveSide
use Prim.Native.Nat.{bit_and, bit_or}
use rudp_go.Common.{
  ℕ, zero, suc, ◌+◌, ◌-◌, ◌/◌, ◌%◌, ◌^◌, List, [], ◌∷◌, ◌++◌, Bool, true, false, ◌||◌, ◌&&◌, not,
  length, take, drop, ltb, leb, ◌==◌, if◌then◌else◌, add32, sub32, mul32, add64, uint32_max,
  Outcome, done, panic, ◌>>=◌, ℤ, pos, negsuc, ltb_ℤ, to_int32, to_uint32,
}
use rudp_go.Snmp.{Snmp, add_out_segs}
use rudp_go.Wire.{
  Segment, zero_segment, Writer, encode_over_head, encode_data, overhead, cmd_push, cmd_ack,
  cmd_wask, cmd_wins,
}
use rudp_go.Rudp.{
  Rudp, World, AckItem, current_ms, time_diff, min, max, remove_front, unused_wnd, ask_send,
  ask_tell, probe_init, probe_min, probe_limit, thresh_min,
}
use Packet.{Out, start_out, make_space, flush_buffer, encode_header, encode_segment}
use Transmit.{Resend, resend_all}

-- `seg` at the start: an acknowledgement with the receive window and `una`.
abbrev pub ack_segment : Rudp → Segment
ack_segment r = record zero_segment {
  conv = r.conv;
  cmd = cmd_ack;
  wnd = unused_wnd r;
  una = r.rcv_nxt;
}

-- The loop over the list of acknowledgements; an old one is sent only if it is the last.
pub send_acks : Rudp → List AckItem → Segment × Out → Outcome (Segment × Out)
send_acks r [] so = done so
send_acks r (ack ∷ acks) (seg, o) = do
  o ← make_space r overhead o
  let chosen = leb r.rcv_nxt ack.sn || (length acks == 0)
  let seg' : Segment = record seg { sn = ack.sn; ts = ack.ts }
  o' ← (if chosen then encode_header seg' o else done o)
  send_acks r acks (if chosen then seg' else seg, o')

-- The timer of the window probes, with the time of day.
pub time_probe : ℕ → Rudp → Rudp
time_probe now r =
    if r.probe_wait == 0
    then record r { probe_wait = probe_init; ts_probe = add32 now probe_init }
    else if ltb_ℤ (time_diff now r.ts_probe) (pos 0)
    then r
    else (let wait = if ltb r.probe_wait probe_min then probe_min else r.probe_wait in
        let wait' = min probe_limit (add32 wait (wait / 2)) in
        record r {
          probe_wait = wait';
          ts_probe = add32 now wait';
          probe = bit_or r.probe ask_send;
        })

pub update_probe : (ℕ → ℕ) → Rudp → World → Rudp × World
unfolding time_probe
update_probe clock r w =
    if r.rmt_wnd == 0
    then (let (now, w') = current_ms clock w in (time_probe now r, w'))
    else (record r { probe_wait = 0; ts_probe = 0 }, w)

-- One probe segment, if its flag is set.
pub send_probe : Rudp → ℕ → ℕ → Segment × Out → Outcome (Segment × Out)
send_probe r flag cmd (seg, o) = if bit_and r.probe flag == 0 then done (seg, o) else (do
  let seg' : Segment = record seg { cmd = cmd }
  o ← make_space r overhead o
  o ← encode_header seg' o
  done (seg', o))

-- The congestion window in force.
pub send_window : Rudp → ℕ
send_window r = let wnd = min r.snd_wnd r.rmt_wnd in if r.no_cwnd == 0 then min r.cwnd wnd else wnd

-- The segments that the window admits, with their numbers; the rest of the queue; the next number.
pub admit : Rudp → ℕ → ℕ → List Segment → List Segment
admit r limit nxt [] = []
admit r limit nxt (s ∷ q) =
    let rest = admit r limit (add32 nxt 1) q in
    if leb limit nxt then [] else record s { conv = r.conv; cmd = cmd_push; sn = nxt } ∷ rest

pub fill_window : ℕ → Rudp → ℕ × Rudp
unfolding admit
fill_window cwnd r =
    let new = admit r (add32 r.snd_una cwnd) r.snd_nxt r.snd_queue in
    (
      length new,
      record r {
        snd_buf = r.snd_buf ++ new;
        snd_nxt = add32 r.snd_nxt (length new);
        snd_queue = remove_front r.snd_queue (length new);
      },
    )

-- `resent`: 0 stands for never.
pub resent_limit : Rudp → ℕ
resent_limit r = if r.fast_resend == 0 then uint32_max else r.fast_resend

-- The counters of the retransmissions; each is touched only by a number that is not 0.
abbrev pub add_losses : (lost fast early : ℕ) → Snmp → Snmp
add_losses lost fast early s = record s {
  lost_segs = add64 s.lost_segs lost;
  fast_retrans_segs = add64 s.fast_retrans_segs fast;
  early_retrans_segs = add64 s.early_retrans_segs early;
  retrans_segs = add64 s.retrans_segs (lost + fast + early);
}

-- Fast recovery.
pub after_change : ℕ → ℕ → Rudp → Rudp
after_change change resent r =
    if change == 0
    then r
    else (let ssthresh = max (sub32 r.snd_nxt r.snd_una / 2) thresh_min in
        record r {
          ssthresh = ssthresh;
          cwnd = add32 ssthresh resent;
          incr = mul32 (add32 ssthresh resent) r.mss;
        })

-- A loss by timeout.
pub after_loss : ℕ → ℕ → Rudp → Rudp
after_loss lost cwnd r =
    if lost == 0
    then r
    else record r { ssthresh = max (cwnd / 2) thresh_min; cwnd = 1; incr = r.mss }

pub at_least_one_segment : Rudp → Rudp
at_least_one_segment r = if r.cwnd == 0 then record r { cwnd = 1; incr = r.mss } else r

pub adjust_cwnd : (change lost resent cwnd : ℕ) → Rudp → Rudp
unfolding after_change after_loss at_least_one_segment
adjust_cwnd change lost resent cwnd r =
    if r.no_cwnd == 0
    then at_least_one_segment (after_loss lost cwnd (after_change change resent r))
    else r

-- The buffer as the writes have left it.
abbrev pub keep_buffer : Out → Rudp → Rudp
keep_buffer o r = record r { buffer = o.writer.written ++ o.writer.ptr }

-- The variables of the loop over the send buffer, as it starts.
abbrev pub start_resend : ℕ → Rudp → Out → Resend
start_resend current r o = record {
  out = o;
  current = current;
  min_rto = to_int32 r.interval;
  change = 0;
  fast = 0;
  early = 0;
  lost = 0;
  dead = false;
  sent_buf = [];
}

-- What follows that loop; `resent` and `cwnd` were fixed before it.
pub finish_flush : (resent cwnd : ℕ) → Rudp → Resend → ℕ × Rudp × World
finish_flush resent cwnd r res =
    let o = flush_buffer r res.out in
    let r' : Rudp = record r {
      snd_buf = res.sent_buf;
      state = (if res.dead then uint32_max else r.state);
    } in
    (
      to_uint32 res.min_rto,
      adjust_cwnd res.change res.lost resent cwnd (keep_buffer o r'),
      record o.world { snmp = add_losses res.lost res.fast res.early o.world.snmp },
    )

-- The data segments.
pub flush_push : (ℕ → ℕ) → Rudp → Segment × Out → Outcome (ℕ × Rudp × World)
flush_push clock r (seg, o) = do
  let cwnd = send_window r
  let (new, r') = fill_window cwnd r
  let (current, w) = current_ms clock o.world
  res ←
      resend_all clock r' seg new (resent_limit r') r'.snd_buf
        (start_resend current r' (record o { world = w }))
  done (finish_flush (resent_limit r') cwnd r' res)

-- Everything behind the branch for acknowledgements alone.
pub flush_data : (ℕ → ℕ) → Rudp → Segment × Out → Outcome (ℕ × Rudp × World)
flush_data clock r (seg, o) = do
  let (r', w) = update_probe clock r o.world
  so ← send_probe r' ask_send cmd_wask (seg, record o { world = w })
  so ← send_probe r' ask_tell cmd_wins so
  flush_push clock (record r' { probe = 0 }) so

-- The last write of `flush(true)`.
pub flush_acks : Rudp → Out → ℕ × Rudp × World
flush_acks r o = let o' = flush_buffer r o in (r.interval, keep_buffer o' r, o'.world)

-- `flush(ackOnly)`: the time to the next flush, and the state.
pub flush : (ℕ → ℕ) → Bool → Rudp → World → Outcome (ℕ × Rudp × World)
flush clock ack_only r w = do
  o ← start_out r w
  (seg, o) ← send_acks r r.ack_list (ack_segment r, o)
  let r' : Rudp = record r { ack_list = [] }
  (if ack_only then done (flush_acks r' o) else flush_data clock r' (seg, o))
