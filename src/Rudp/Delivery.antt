-- ===== src/Rudp/Delivery.antt =====
-- The receiving side of rudp.go: parseData, Receive and peekSize.
pub mod Order
pub mod Arrival
pub mod Growth
pub mod Insert
pub mod Messages
pub mod RoundTrip
pub mod Sizes
pub mod SendSide
pub mod Incomplete
use mathlib.Core.List.{reverse}
use rudp_go.Common.{
  ℕ, zero, suc, ◌+◌, ◌-◌, ◌%◌, List, [], ◌∷◌, ◌++◌, Bool, true, false, ◌||◌, ◌&&◌, not, length,
  take, drop, ltb, leb, ◌==◌, if◌then◌else◌, add32, Outcome, done, panic, ◌>>=◌, ℤ, pos, negsuc,
  Option, none, some,
}
use Prim.Native.Nat.{bit_or}
use rudp_go.Wire.{Segment}
use rudp_go.Rudp.{Rudp, remove_front, new_segment, ask_tell}

-- The backward search of parseData: the list is `rcvBuf[:i + 1]`, last first. The result is
-- (repeat, insertIndex).
pub find_place : ℕ → List Segment → Bool × ℕ
find_place sn [] = (false, 0)
find_place sn (s ∷ before) =
    if s.sn == sn
    then (true, 0)
    else if ltb s.sn sn
    then (false, length before + 1)
    else find_place sn before

-- The segments at the front of the receive buffer that are next in turn and have room in the
-- queue; `queued` is len(rcvQueue) + count.
pub ready_count : ℕ → ℕ → ℕ → List Segment → ℕ
ready_count rcv_wnd nxt queued [] = 0
ready_count rcv_wnd nxt queued (s ∷ buf) =
    if s.sn == nxt && ltb queued rcv_wnd
    then suc (ready_count rcv_wnd (add32 nxt 1) (queued + 1) buf)
    else 0

-- The second half of parseData, and the middle of Receive.
pub move_ready : Rudp → Rudp
move_ready r =
    let count = ready_count r.rcv_wnd r.rcv_nxt (length r.rcv_queue) r.rcv_buf in
    record r {
      rcv_nxt = add32 r.rcv_nxt count;
      rcv_queue = r.rcv_queue ++ take count r.rcv_buf;
      rcv_buf = remove_front r.rcv_buf count;
    }

pub insert_at : ℕ → Segment → List Segment → List Segment
insert_at i seg buf = take i buf ++ seg ∷ drop i buf

-- The data is copied to a pooled buffer.
pub store : Segment → Rudp → Outcome (Bool × Rudp)
store seg r =
    let (repeat, index) = find_place seg.sn (reverse r.rcv_buf) in
    if repeat then done (true, r) else (do
      copy ← new_segment seg.payload
      done
          (false, record r { rcv_buf = insert_at index (record seg { payload = copy }) r.rcv_buf }))

-- The result is true for a repeated segment and for one outside the window.
pub parse_data : Segment → Rudp → Outcome (Bool × Rudp)
parse_data seg r =
    if leb (add32 r.rcv_nxt r.rcv_wnd) seg.sn || ltb seg.sn r.rcv_nxt
    then done (true, r)
    else (do (repeat, r') ← store seg r; done (repeat, move_ready r'))

-- The bytes up to the segment that ends a message, that segment included.
pub message_size : List Segment → ℕ
message_size [] = 0
message_size (s ∷ q) = length s.payload + (if s.frg == 0 then 0 else message_size q)

-- `frg + 1` is a uint8, and wraps.
pub peek_from : Segment → List Segment → ℤ
peek_from s q =
    if s.frg == 0
    then pos (length s.payload)
    else if ltb (suc (length q)) ((s.frg + 1) % 256)
    then negsuc 0
    else pos (message_size (s ∷ q))

pub peek_queue : List Segment → ℤ
peek_queue [] = negsuc 0
peek_queue (s ∷ q) = peek_from s q

pub peek_size : Rudp → ℤ
peek_size r = peek_queue r.rcv_queue

-- The merge loop of Receive: the bytes copied out, and `count`.
pub merge : List Segment → List ℕ × ℕ
merge [] = ([], 0)
merge (s ∷ q) =
    let rest = merge q in if s.frg == 0 then (s.payload, 1) else (s.payload ++ rest.0, suc rest.1)

-- Receive behind its two guards.
pub take_message : Rudp → List ℕ × Rudp
take_message r =
    let (bytes, count) = merge r.rcv_queue in
    let r' = move_ready (record r { rcv_queue = remove_front r.rcv_queue count }) in
    let recover = leb r.rcv_wnd (length r.rcv_queue) && ltb (length r'.rcv_queue) r.rcv_wnd in
    (bytes, record r' { probe = (if recover then bit_or r'.probe ask_tell else r'.probe) })

-- What `Receive` gives for the size of the next message and the length of the caller's buffer:
-- its code, or the bytes that it puts there (their number is the code n).
pub receive_sized : ℤ → ℕ → Rudp → (ℤ × List ℕ) × Rudp
receive_sized (negsuc n) room r = ((negsuc 0, []), r)
receive_sized (pos size) room r =
    if ltb room size
    then ((negsuc 1, []), r)
    else (let (bytes, r') = take_message r in ((pos (length bytes), bytes), r'))

pub receive : ℕ → Rudp → (ℤ × List ℕ) × Rudp
receive room r = receive_sized (peek_size r) room r
