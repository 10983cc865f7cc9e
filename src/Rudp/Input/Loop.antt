-- ===== src/Rudp/Input/Loop.antt =====
-- The loop of `Input` over the segments of a packet.
pub mod Bounds
pub mod Keeping
pub mod Advance
pub mod Growing
pub mod Frames
use Prim.Native.Nat.{bit_or}
use rudp_go.Common.{
  ℕ, zero, suc, ◌+◌, List, [], ◌∷◌, Bool, true, false, ◌||◌, ◌&&◌, not, length, take, drop, ltb,
  leb, ◌==◌, if◌then◌else◌, add32, Outcome, done, panic, out_of_fuel, ◌>>=◌, ℤ, pos, negsuc,
}
use rudp_go.Snmp.{add_repeat_segs}
use rudp_go.Wire.{
  Segment, zero_segment, Header, decode_uint32, decode_fields, overhead, cmd_push, cmd_ack,
  cmd_wask, cmd_wins,
}
use rudp_go.Rudp.{Rudp, World, ask_tell}
use rudp_go.Rudp.Acks.{parse_una, update_snd_una, parse_ack, parse_fast_ack, push_ack}
use rudp_go.Rudp.Delivery.{parse_data}

-- The variables of the loop; `flag` is flag != 0.
pub record Pass : Type 0 where
  pub rudp : Rudp
  pub world : World
  pub flag : Bool
  pub latest : ℕ
  pub in_segs : ℕ
  pub window_slide : Bool

-- How the loop ends: by an early return with a code, or at the end of the packet.
pub data Ended : Type 0 where
  returned : ℤ → Rudp → World → Ended
  all_read : Pass → Ended

pub is_command : ℕ → Bool
is_command cmd = cmd == cmd_push || cmd == cmd_ack || cmd == cmd_wask || cmd == cmd_wins

-- The segment that a push brings.
abbrev pub pushed : ℕ → Header → List ℕ → Segment
pushed conv h body = record zero_segment {
  conv = conv;
  cmd = h.cmd;
  frg = h.frg;
  wnd = h.wnd;
  ts = h.ts;
  sn = h.sn;
  una = h.una;
  payload = take h.length_field body;
}

-- Acknowledge what lies below the window's end, and store what lies in the window; the Boolean
-- is `repeat`.
pub accept_push : Segment → Rudp → Outcome (Bool × Rudp)
accept_push seg r =
    if ltb seg.sn (add32 r.rcv_nxt r.rcv_wnd)
    then (let r' = push_ack seg.sn seg.ts r in
        if ltb seg.sn r.rcv_nxt then done (true, r') else parse_data seg r')
    else done (true, r)

pub handle_push : Bool → Segment → Pass → Outcome Pass
handle_push regular seg p = do
  (repeat, r) ← accept_push seg p.rudp
  done (record p {
    rudp = r;
    world =
        (if regular && repeat
          then record p.world { snmp = add_repeat_segs 1 p.world.snmp }
          else p.world);
  })

pub handle_ack : Header → Pass → Pass
handle_ack h p = record p {
  rudp = parse_fast_ack h.sn h.ts (parse_ack h.sn p.rudp);
  flag = true;
  latest = h.ts;
}

pub handle_wask : Pass → Pass
handle_wask p = record p { rudp = record p.rudp { probe = bit_or p.rudp.probe ask_tell } }

-- What every command does first: the peer's window, and `una`.
pub take_header : Bool → Header → Pass → Pass
take_header regular h p =
    let r = if regular then record p.rudp { rmt_wnd = h.wnd } else p.rudp in
    let (removed, r') = parse_una h.una r in
    record p { rudp = update_snd_una r'; window_slide = p.window_slide || ltb 0 removed }

pub dispatch : Bool → ℕ → Header → List ℕ → Pass → Outcome Pass
dispatch regular conv h body p =
    if h.cmd == cmd_push
    then handle_push regular (pushed conv h body) p
    else if h.cmd == cmd_ack
    then done (handle_ack h p)
    else if h.cmd == cmd_wask
    then done (handle_wask p)
    else done p

pub count_segment : Pass → Pass
count_segment p = record p { in_segs = p.in_segs + 1 }

-- One round that has room for a header: `none` beside the rest is another round to come.
pub data Round : Type 0 where
  stop : ℤ → Round
  next : List ℕ → Pass → Round

-- What a round leads to, with the rounds that may follow it.
go_on : Pass → (List ℕ → Pass → Outcome Ended) → Round → Outcome Ended
go_on p rounds (stop code) = done (returned code p.rudp p.world)
go_on p rounds (next rest p') = rounds rest p'

-- A round once its header is read. The checks stand before anything changes. An int is 64 bits
-- wide, so `int(length)` is never negative.
pub handle_segment : Bool → ℕ → Header → List ℕ → Pass → Outcome Round
handle_segment regular conv h body p =
    if ltb (length body) h.length_field
    then done (stop (negsuc 1))
    else if not (is_command h.cmd)
    then done (stop (negsuc 2))
    else (dispatch regular conv h body (take_header regular h p) >>= λ p'.
        done (next (drop h.length_field body) (count_segment p')))

pub read_segment : Bool → List ℕ → Pass → Outcome Round
read_segment regular packet p = do
  (conv, packet) ← decode_uint32 packet
  (if conv == p.rudp.conv
      then (decode_fields packet >>= λ (h, body). handle_segment regular conv h body p)
      else done (stop (negsuc 0)))

-- The fuel is the number of bytes of the packet; a round reads 24 at least.
pub input_loop : Bool → ℕ → List ℕ → Pass → Outcome Ended
input_loop regular zero packet p =
    if ltb (length packet) overhead then done (all_read p) else out_of_fuel
input_loop regular (suc fuel) packet p =
    let rounds = (read_segment regular packet p >>= go_on p (input_loop regular fuel)) in
    if ltb (length packet) overhead then done (all_read p) else rounds
