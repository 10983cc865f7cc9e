-- ===== src/Rudp/Flush/Transmit/Bounds.antt =====
-- The loop of `flush` over the send buffer: its bounds, and what it keeps of the segments.
use mathlib.Core.List.{map, map-append}
use rudp_go.Common.{
  ℕ, ◌+◌, ◌≤◌, ◌≡◌, refl, ap, List, [], ◌∷◌, ◌++◌, append_assoc, length, arith, done, ◌>>=◌,
  Returns, Returns-bind, ltb_ℤ, pos, ◌&&◌, append-nil, Bool-cases, inl, inr, ℤ,
}
use rudp_go.Wire.{Segment, overhead}
use rudp_go.Rudp.{Rudp, time_diff}
use rudp_go.Rudp.Sized.{Sized, AtMost}
use rudp_go.Rudp.Flush.Packet.{make_space, encode_segment}
use rudp_go.Rudp.Flush.Packet.Bounds.{Sound, make_space-Sound, encode_segment-Sound}
use rudp_go.Rudp.Flush.Transmit.{
  Resend, Cause, acknowledged, first_send, waiting, cause, schedule, count_cause, transmit, nearest,
  visit, resend_all,
}

-- What a sending leaves alone in a segment.
abbrev pub message_part : Segment → ℕ × ℕ × List ℕ
message_part s = (s.sn, s.frg, s.payload)

-- The loop has passed the segments `before`: the packet is sound, and what has been passed is what
-- was to be sent.
pub record Passed (r : Rudp) (before : List Segment) (l : Resend) : Type 0 where
  pub sound : Sound r 0 l.out
  pub parts : map message_part l.sent_buf ≡ map message_part before

pub schedule_part :
    (r : Rudp) (current : ℕ) (c : Cause) (s : Segment)
    → message_part (schedule r current c s) ≡ message_part s
unfolding schedule
schedule_part r current acknowledged s = refl
schedule_part r current _ s = refl

count_cause-Passed :
    (r : Rudp) (before : List Segment) (c : Cause) (l : Resend)
    → Passed r before l
    → Passed r before (count_cause c l)
unfolding count_cause
count_cause-Passed r before acknowledged l p = p
count_cause-Passed r before first_send l p = p
count_cause-Passed r before waiting l p = p
count_cause-Passed r before _ l p = record { sound = p.sound; parts = p.parts }

nearest-Passed :
    (r : Rudp) (before : List Segment) (s : Segment) (l : Resend)
    → Passed r before l
    → Passed r before (nearest s l)
unfolding nearest
nearest-Passed r before s l p = elim (Bool-cases (ltb_ℤ (pos 0) rto && ltb_ℤ rto l.min_rto)) [
  | inl sooner ↦ rw sooner (record { sound = p.sound; parts = p.parts })
  | inr later ↦ rw later p
]
  where
    rto : ℤ
    rto = time_diff s.resendts l.current

-- One more segment passed, whose message part is that of `s`.
pub passed_one :
    (before : List Segment) (s s' : Segment) (sent : List Segment)
    → message_part s' ≡ message_part s
    → map message_part sent ≡ map message_part before
    → map message_part (sent ++ s' ∷ []) ≡ map message_part (before ++ s ∷ [])
passed_one before s s' sent e h = rw (map-append, h, map-append, e)

transmit-Passed :
    (clock : ℕ → ℕ) (r : Rudp) (seg s s' : Segment) (before : List Segment) (l : Resend)
    → Sized r
    → length s'.payload ≤ r.mss
    → message_part s' ≡ message_part s
    → Passed r before l
    → Returns (transmit clock r seg s' l) (Passed r (before ++ s ∷ []))
unfolding transmit
transmit-Passed clock r seg s s' before l v fits e p =
    Returns-bind (make_space r _ _) _ (Sound r (overhead + length s'.payload)) _
      (make_space-Sound r (overhead + length s'.payload) _ (omega arith) (record {
        size = p.sound.size;
        start = p.sound.start;
        free = p.sound.free;
        within = p.sound.within;
      }))
      λ o so.
        Returns-bind (encode_segment _ o) _ (Sound r 0) _ (encode_segment-Sound r _ o so)
          λ o' so'. record { sound = so'; parts = passed_one before s _ l.sent_buf e p.parts }

sent_again :
    (clock : ℕ → ℕ) (r : Rudp) (seg s : Segment) (before : List Segment) (l : Resend) (c : Cause)
    → Sized r
    → length s.payload ≤ r.mss
    → Passed r before l
    → let s' = schedule r l.current c s in
      Returns
        (transmit clock r seg s' (count_cause c l) >>= λ l'. done (nearest s' l'))
        (Passed r (before ++ s ∷ []))
sent_again clock r seg s before l c v fits p =
    Returns-bind (transmit clock r seg _ _) _ (Passed r (before ++ s ∷ [])) _
      (transmit-Passed clock r seg s _ before _ v (rw same fits) part
        (count_cause-Passed r before c l p))
      (λ l' p'. nearest-Passed r (before ++ s ∷ []) _ l' p')
  where
    part : message_part (schedule r l.current c s) ≡ message_part s
    part = schedule_part r l.current c s

    same : length (schedule r l.current c s).payload ≡ length s.payload
    same = ap (λ (m : ℕ × ℕ × List ℕ). length m.2) part

visit-Passed :
    (clock : ℕ → ℕ) (r : Rudp) (seg s : Segment) (before : List Segment) (l : Resend) (c : Cause)
    → Sized r
    → length s.payload ≤ r.mss
    → Passed r before l
    → Returns (visit clock r seg s l c) (Passed r (before ++ s ∷ []))
unfolding visit
visit-Passed clock r seg s before l acknowledged v fits p = record {
  sound = p.sound;
  parts = passed_one before s s l.sent_buf refl p.parts;
}
visit-Passed clock r seg s before l waiting v fits p =
    nearest-Passed r (before ++ s ∷ []) s _
      (record { sound = p.sound; parts = passed_one before s s l.sent_buf refl p.parts })
visit-Passed clock r seg s before l c v fits p = sent_again clock r seg s before l c v fits p

-- What has been passed fits if what was to be sent does.
pub AtMost-parts :
    (n : ℕ) (xs ys : List Segment)
    → map message_part xs ≡ map message_part ys
    → AtMost n ys
    → AtMost n xs
AtMost-parts n [] ys e h = tt
AtMost-parts n (x ∷ xs) [] e h = cc
AtMost-parts n (x ∷ xs) (y ∷ ys) e h =
    let head : message_part x ≡ message_part y = cc in
    let same : length x.payload ≡ length y.payload = ap (λ (m : ℕ × ℕ × List ℕ). length m.2) head in
    (omega arith, AtMost-parts n xs ys (cc) h.1)

pub resend_all-Passed :
    (clock : ℕ → ℕ) (r : Rudp) (seg : Segment) (new resent : ℕ) (buf before : List Segment)
    (l : Resend)
    → Sized r
    → AtMost r.mss buf
    → Passed r before l
    → Returns (resend_all clock r seg new resent buf l) (Passed r (before ++ buf))
unfolding resend_all
resend_all-Passed clock r seg new resent [] before l v fits p = rw append-nil p
resend_all-Passed clock r seg new resent (s ∷ buf) before l v fits p =
    Returns-bind (visit clock r seg s l (cause new resent l.current s))
      (resend_all clock r seg new resent buf) (Passed r (before ++ s ∷ []))
      (Passed r (before ++ s ∷ buf))
      (visit-Passed clock r seg s before l (cause new resent l.current s) v fits.0 p)
      λ l' p'.
        rw (← append_assoc before (s ∷ []) buf)
          (resend_all-Passed clock r seg new resent buf (before ++ s ∷ []) l' v fits.1 p')
