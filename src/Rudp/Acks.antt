-- ===== src/Rudp/Acks.antt =====
-- What an acknowledgement does to the send buffer in rudp.go: parseUna, updateSndUna, parseAck,
-- parseFastAck and pushAck.
pub mod Una
pub mod Marks
pub mod Sizes
pub mod Advance
pub mod ReceiveSide
use rudp_go.Common.{
  ℕ, zero, suc, ◌+◌, ◌%◌, List, [], ◌∷◌, ◌++◌, Bool, true, false, ◌||◌, ◌&&◌, not, length, ltb, leb,
  ◌==◌, if◌then◌else◌, add32,
}
use rudp_go.Wire.{Segment}
use rudp_go.Rudp.{Rudp, AckItem, remove_front}

-- `removeCount`: the segments before the first one that is not below `una`.
pub una_count : ℕ → List Segment → ℕ
una_count una [] = 0
una_count una (s ∷ buf) = if ltb s.sn una then suc (una_count una buf) else 0

pub parse_una : ℕ → Rudp → ℕ × Rudp
unfolding una_count
parse_una una r =
    let count = una_count una r.snd_buf in
    (count, (if ltb 0 count then record r { snd_buf = remove_front r.snd_buf count } else r))

first_sn : List Segment → ℕ → ℕ
first_sn [] nxt = nxt
first_sn (s ∷ buf) nxt = s.sn

pub update_snd_una : Rudp → Rudp
unfolding first_sn
update_snd_una r = record r { snd_una = first_sn r.snd_buf r.snd_nxt }

-- The loop of parseAck: the segment is marked and its data recycled.
pub mark_acked : ℕ → List Segment → List Segment
mark_acked sn [] = []
mark_acked sn (s ∷ buf) =
    let rest = mark_acked sn buf in
    if sn == s.sn
    then record s { acked = 1; payload = [] } ∷ buf
    else if ltb sn s.sn
    then s ∷ buf
    else s ∷ rest

pub parse_ack : ℕ → Rudp → Rudp
unfolding mark_acked
parse_ack sn r =
    if ltb sn r.snd_una || leb r.snd_nxt sn
    then r
    else record r { snd_buf = mark_acked sn r.snd_buf }

-- The loop of parseFastAck.
pub count_skipped : ℕ → ℕ → List Segment → List Segment
count_skipped sn ts [] = []
count_skipped sn ts (s ∷ buf) =
    let rest = count_skipped sn ts buf in
    if ltb sn s.sn
    then s ∷ buf
    else if not (sn == s.sn) && leb s.ts ts
    then record s { fastack = add32 s.fastack 1 } ∷ rest
    else s ∷ rest

pub parse_fast_ack : ℕ → ℕ → Rudp → Rudp
unfolding count_skipped
parse_fast_ack sn ts r =
    if ltb sn r.snd_una || leb r.snd_nxt sn
    then r
    else record r { snd_buf = count_skipped sn ts r.snd_buf }

pub push_ack : ℕ → ℕ → Rudp → Rudp
push_ack sn ts r = record r { ack_list = r.ack_list ++ record { sn = sn; ts = ts } ∷ [] }
