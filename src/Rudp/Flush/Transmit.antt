-- ===== src/Rudp/Flush/Transmit.antt =====
-- The loop of `flush` over the send buffer: which segments are sent (again), and why.
pub mod Bounds
pub mod Kept
pub mod Oversize
use rudp_go.Common.{
  ℕ, ◌+◌, ◌/◌, ◌%◌, ◌^◌, List, [], ◌∷◌, ◌++◌, Bool, true, false, ◌||◌, ◌&&◌, length, ltb, leb, ◌==◌,
  if◌then◌else◌, add32, Outcome, done, panic, ◌>>=◌, ℤ, pos, negsuc, ltb_ℤ, pos_part, neg_part,
}
use rudp_go.Wire.{Segment, overhead}
use rudp_go.Rudp.{Rudp, World, current_ms, time_diff}
use rudp_go.Rudp.Flush.Packet.{Out, make_space, encode_segment}

-- The variables of the loop; `sent_buf` is the part of the send buffer that it has passed, and
-- `dead` says that a segment has been sent too often.
pub record Resend : Type 0 where
  pub out : Out
  pub current : ℕ
  pub min_rto : ℤ
  pub change : ℕ
  pub fast : ℕ
  pub early : ℕ
  pub lost : ℕ
  pub dead : Bool
  pub sent_buf : List Segment

-- The branch that a segment takes.
pub data Cause : Type 0 where
  acknowledged first_send fast_resend early_resend timed_out waiting : Cause

pub cause : (new resent current : ℕ) → Segment → Cause
cause new resent current s =
    if s.acked == 1
    then acknowledged
    else if s.xmit == 0
    then first_send
    else if leb resent s.fastack
    then fast_resend
    else if ltb 0 s.fastack && (new == 0)
    then early_resend
    else if ltb_ℤ (time_diff current s.resendts) (pos 0)
    then waiting
    else timed_out

-- The new timeout and the time of the next sending; `current` is the time before this sending.
abbrev pub reschedule : Rudp → ℕ → ℕ → Segment → Segment
reschedule r current rto s = record s { rto = rto; resendts = add32 current rto }

pub schedule : Rudp → ℕ → Cause → Segment → Segment
schedule r current first_send s = reschedule r current r.rx_rto s
schedule r current fast_resend s = reschedule r current r.rx_rto (record s { fastack = 0 })
schedule r current early_resend s = reschedule r current r.rx_rto (record s { fastack = 0 })
schedule r current timed_out s =
    reschedule r current (add32 s.rto (if r.no_delay == 0 then r.rx_rto else r.rx_rto / 2))
      (record s { fastack = 0 })
schedule r current acknowledged s = s
schedule r current waiting s = s

pub count_cause : Cause → Resend → Resend
count_cause fast_resend l = record l { change = l.change + 1; fast = l.fast + 1 }
count_cause early_resend l = record l { change = l.change + 1; early = l.early + 1 }
count_cause timed_out l = record l { lost = l.lost + 1 }
count_cause _ l = l

-- The header fields of a sending: its time, the window and `una` of the acknowledgement segment.
abbrev pub stamp : ℕ → Segment → Segment → Segment
stamp now seg s = record s { xmit = add32 s.xmit 1; ts = now; wnd = seg.wnd; una = seg.una }

pub transmit : (ℕ → ℕ) → Rudp → Segment → Segment → Resend → Outcome Resend
transmit clock r seg s l = do
  let (now, w) = current_ms clock l.out.world
  let s' = stamp now seg s
  o ← make_space r (overhead + length s'.payload) (record l.out { world = w })
  o ← encode_segment s' o
  done (record l {
    out = o;
    current = now;
    dead = l.dead || leb r.dead_link s'.xmit;
    sent_buf = l.sent_buf ++ s' ∷ [];
  })

abbrev pub keep : Segment → Resend → Resend
keep s l = record l { sent_buf = l.sent_buf ++ s ∷ [] }

-- The nearest time at which a segment falls due.
pub nearest : Segment → Resend → Resend
nearest s l =
    let rto = time_diff s.resendts l.current in
    if ltb_ℤ (pos 0) rto && ltb_ℤ rto l.min_rto then record l { min_rto = rto } else l

pub visit : (ℕ → ℕ) → Rudp → Segment → Segment → Resend → Cause → Outcome Resend
unfolding schedule count_cause transmit nearest
visit clock r seg s l acknowledged = done (keep s l)
visit clock r seg s l waiting = done (nearest s (keep s l))
visit clock r seg s l c = do
  let s' = schedule r l.current c s
  l ← transmit clock r seg s' (count_cause c l)
  done (nearest s' l)

pub resend_all :
    (ℕ → ℕ) → Rudp → Segment → (new resent : ℕ) → List Segment → Resend → Outcome Resend
resend_all clock r seg new resent [] l = done l
resend_all clock r seg new resent (s ∷ buf) l = do
  l ← visit clock r seg s l (cause new resent l.current s)
  resend_all clock r seg new resent buf l
