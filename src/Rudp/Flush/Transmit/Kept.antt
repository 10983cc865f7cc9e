-- ===== src/Rudp/Flush/Transmit/Kept.antt =====
-- The loop of `flush` over the send buffer: numbers, fragment numbers and data.
use mathlib.Core.List.{map}
use rudp_go.Common.{
  ℕ, ◌≡◌, refl, List, [], ◌∷◌, ◌++◌, append_assoc, append-nil, arith, done, ◌>>=◌, IfDone,
  IfDone-bind, IfDone-then,
}
use rudp_go.Wire.{Segment}
use rudp_go.Rudp.{Rudp}
use rudp_go.Rudp.Flush.Packet.{make_space, encode_segment}
use rudp_go.Rudp.Flush.Transmit.{
  Resend, Cause, acknowledged, waiting, first_send, fast_resend, early_resend, timed_out, cause,
  schedule, count_cause, transmit, nearest, visit, resend_all,
}
use rudp_go.Rudp.Flush.Transmit.Bounds.{message_part, schedule_part, passed_one}

-- The loop has passed `before`, and kept it apart from the marks of sending.
abbrev pub Keeps : List Segment → Resend → Type 0
Keeps before l = map message_part l.sent_buf ≡ map message_part before

count_cause-sent : (c : Cause) (l : Resend) → (count_cause c l).sent_buf ≡ l.sent_buf
unfolding count_cause
count_cause-sent fast_resend l = refl
count_cause-sent early_resend l = refl
count_cause-sent timed_out l = refl
count_cause-sent acknowledged l = refl
count_cause-sent first_send l = refl
count_cause-sent waiting l = refl

nearest-sent : (s : Segment) (l : Resend) → (nearest s l).sent_buf ≡ l.sent_buf
unfolding nearest
nearest-sent s l = ground arith

sent_again-Keeps :
    (clock : ℕ → ℕ) (r : Rudp) (seg s : Segment) (before : List Segment) (l : Resend) (c : Cause)
    → Keeps before l
    → let s' = schedule r l.current c s in
      IfDone
        (transmit clock r seg s' (count_cause c l) >>= λ l'. done (nearest s' l'))
        (Keeps (before ++ s ∷ []))
unfolding transmit
sent_again-Keeps clock r seg s before l c p =
    IfDone-bind (transmit clock r seg s' (count_cause c l)) _ (Keeps (before ++ s ∷ [])) _
      (IfDone-then (make_space r _ _) _ _ λ o.
        IfDone-then (encode_segment _ o) _ _
          λ o'. passed_one before s _ _ (schedule_part r l.current c s) (rw count_cause-sent p))
      λ l' p'. rw nearest-sent p'
  where
    s' : Segment
    s' = schedule r l.current c s

visit-Keeps :
    (clock : ℕ → ℕ) (r : Rudp) (seg s : Segment) (before : List Segment) (l : Resend) (c : Cause)
    → Keeps before l
    → IfDone (visit clock r seg s l c) (Keeps (before ++ s ∷ []))
unfolding visit
visit-Keeps clock r seg s before l acknowledged p = passed_one before s s l.sent_buf refl p
visit-Keeps clock r seg s before l waiting p =
    rw nearest-sent (passed_one before s s l.sent_buf refl p)
visit-Keeps clock r seg s before l c p = sent_again-Keeps clock r seg s before l c p

pub resend_all-Keeps :
    (clock : ℕ → ℕ) (r : Rudp) (seg : Segment) (new resent : ℕ) (buf before : List Segment)
    (l : Resend)
    → Keeps before l
    → IfDone (resend_all clock r seg new resent buf l) (Keeps (before ++ buf))
unfolding resend_all
resend_all-Keeps clock r seg new resent [] before l p = rw append-nil p
resend_all-Keeps clock r seg new resent (s ∷ buf) before l p =
    IfDone-bind (visit clock r seg s l (cause new resent l.current s))
      (resend_all clock r seg new resent buf) (Keeps (before ++ s ∷ [])) (Keeps (before ++ s ∷ buf))
      (visit-Keeps clock r seg s before l (cause new resent l.current s) p)
      λ l' p'.
        rw (← append_assoc before (s ∷ []) buf)
          (resend_all-Keeps clock r seg new resent buf (before ++ s ∷ []) l' p')
