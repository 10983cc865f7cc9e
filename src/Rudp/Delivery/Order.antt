-- ===== src/Rudp/Delivery/Order.antt =====
-- The order of segments in the receive queue and the receive buffer.
use rudp_go.Common.{
  ℕ, suc, ◌+◌, ◌-◌, ◌^◌, ◌≤◌, ◌<◌, ◌≡◌, ◌≢◌, ◌⊎◌, refl, sym, ap, ◌∙◌, List, [], ◌∷◌, ◌++◌,
  append_assoc, length, take, drop, length-append, take-append-drop, inl, inr, true, false, ltb,
  ◌==◌, ◌&&◌, add32, arith, eq→==, ne→not_==, le→not_ltb, lt→ltb,
}
use native.Mathlib.Decide.{ℕ_discrete, dec_lt}
use mathlib.Core.Path.{subst, subst₂}
use rudp_go.Wire.{Segment}
use rudp_go.Rudp.{Rudp}
use rudp_go.Rudp.Numbers.{Ascends, Ascends-mono, Consecutive, Consecutive-append}
use rudp_go.Rudp.Delivery.{ready_count, move_ready}
use rudp_go.Rudp.Delivery.Insert.{insert_sorted, has_sn}

-- The queue holds consecutive numbers from `base` up to the next one; the buffer holds later
-- ones, in rising order.
pub record InOrder (base : ℕ) (r : Rudp) : Type 0 where
  pub buffered : Ascends r.rcv_nxt r.rcv_buf
  pub queued : Consecutive base r.rcv_queue
  pub next : base + length r.rcv_queue ≡ r.rcv_nxt

-- The window's end does not wrap.
abbrev pub NoWrap : Rudp → Type 0
NoWrap r = r.rcv_nxt + r.rcv_wnd < 2 ^ 32

-- No segment at the front of the buffer is still due.
abbrev pub Waits : (rcv_wnd nxt queued : ℕ) → List Segment → Type 0
Waits rcv_wnd nxt queued [] = Unit {0}
Waits rcv_wnd nxt queued (s ∷ buf) = (s.sn ≢ nxt) ⊎ (rcv_wnd ≤ queued)

abbrev pub IsSettled : Rudp → Type 0
IsSettled r = Waits r.rcv_wnd r.rcv_nxt (length r.rcv_queue) r.rcv_buf

-- What the count of ready segments splits off the buffer.
record Ready (rcv_wnd nxt queued : ℕ) (buf : List Segment) (count : ℕ) : Type 0 where
  number : length (take count buf) ≡ count
  due : Consecutive nxt (take count buf)
  later : Ascends (nxt + count) (drop count buf)
  fits : count ≤ rcv_wnd - queued
  settled : Waits rcv_wnd (nxt + count) (queued + count) (drop count buf)

none_due :
    (rcv_wnd nxt queued : ℕ) (buf : List Segment)
    → Ascends nxt buf
    → Waits rcv_wnd nxt queued buf
    → Ready rcv_wnd nxt queued buf 0
none_due rcv_wnd nxt queued [] a w = record {
  number = refl;
  due = tt;
  later = tt;
  fits = omega arith;
  settled = tt;
}
none_due rcv_wnd nxt queued (s ∷ buf) a w = record {
  number = refl;
  due = tt;
  later = (omega arith, a.1);
  fits = omega arith;
  settled = omega arith;
}

one_due :
    (rcv_wnd nxt queued : ℕ) (s : Segment) (buf : List Segment) (count : ℕ)
    → s.sn ≡ nxt
    → queued < rcv_wnd
    → Ready rcv_wnd (nxt + 1) (queued + 1) buf count
    → Ready rcv_wnd nxt queued (s ∷ buf) (suc count)
one_due rcv_wnd nxt queued s buf count e room v = record {
  number = ap suc v.number;
  due = (e, subst (λ n. Consecutive n (take count buf)) (omega arith) v.due);
  later = subst (λ n. Ascends n (drop count buf)) (omega arith) v.later;
  fits = omega (arith, v.fits);
  settled =
      subst₂ (λ n k. Waits rcv_wnd n k (drop count buf)) (omega arith) (omega arith) v.settled;
}

due_cases :
    (sn nxt queued rcv_wnd : ℕ)
    → ((sn == nxt && ltb queued rcv_wnd) ≡ true) × (sn ≡ nxt) × (queued < rcv_wnd)
      ⊎ ((sn == nxt && ltb queued rcv_wnd) ≡ false) × ((sn ≢ nxt) ⊎ (rcv_wnd ≤ queued))
due_cases sn nxt queued rcv_wnd = elim (ℕ_discrete sn nxt) [
  | no ne ↦ inr (rw (ne→not_== sn nxt ne), inl ne)
  | yes e ↦ elim (dec_lt queued rcv_wnd) [
    | yes lt ↦ inl (rw (eq→== sn nxt e, lt→ltb _ _ lt), e, lt)
    | no ge ↦ inr (rw (eq→== sn nxt e, le→not_ltb queued rcv_wnd (omega arith)), inr (omega arith))
  ]
]

ready_count-Ready :
    (rcv_wnd nxt queued : ℕ) (buf : List Segment)
    → Ascends nxt buf
    → nxt + rcv_wnd < 2 ^ 32 + queued
    → Ready rcv_wnd nxt queued buf (ready_count rcv_wnd nxt queued buf)
unfolding ready_count
ready_count-Ready rcv_wnd nxt queued [] a h = none_due rcv_wnd nxt queued [] tt tt
ready_count-Ready rcv_wnd nxt queued (s ∷ buf) a h = elim (due_cases s.sn nxt queued rcv_wnd) [
  | inr (waits, why) ↦ rw waits (none_due rcv_wnd nxt queued (s ∷ buf) a why)
  | inl (due, e, room) ↦
      let step : add32 nxt 1 ≡ nxt + 1 = omega arith in
      rw (due, step)
        (one_due rcv_wnd nxt queued s buf _ e room (
          ready_count-Ready rcv_wnd (nxt + 1) (queued + 1) buf (Ascends-mono buf (omega arith) a.1)
            (omega arith)))
]

-- Moving what is ready keeps the order, loses and repeats nothing, and leaves nothing due.
pub record Moved (base : ℕ) (r r' : Rudp) : Type 0 where
  pub in_order : InOrder base r'
  pub contents : r'.rcv_queue ++ r'.rcv_buf ≡ r.rcv_queue ++ r.rcv_buf
  pub settled : IsSettled r'

pub move_ready-Moved :
    (base : ℕ) (r : Rudp) → InOrder base r → NoWrap r → Moved base r (move_ready r)
unfolding move_ready
move_ready-Moved base r v h = record {
  in_order = record {
    buffered = subst (λ n. Ascends n (drop count r.rcv_buf)) (sym exact) ready.later;
    queued = Consecutive-append base r.rcv_nxt r.rcv_queue _ v.queued (sym v.next) ready.due;
    next =
        omega
          (arith, v.next, exact, length-append r.rcv_queue (take count r.rcv_buf), ready.number);
  };
  contents =
      append_assoc r.rcv_queue (take count r.rcv_buf) (drop count r.rcv_buf)
      ∙ ap (◌++◌ r.rcv_queue) (take-append-drop count r.rcv_buf);
  settled =
      subst₂ (λ n k. Waits r.rcv_wnd n k (drop count r.rcv_buf)) (sym exact)
        (omega (arith, length-append r.rcv_queue (take count r.rcv_buf), ready.number))
        ready.settled;
}
  where
    count : ℕ
    count = ready_count r.rcv_wnd r.rcv_nxt (length r.rcv_queue) r.rcv_buf

    ready : Ready r.rcv_wnd r.rcv_nxt (length r.rcv_queue) r.rcv_buf count
    ready =
        ready_count-Ready r.rcv_wnd r.rcv_nxt (length r.rcv_queue) r.rcv_buf v.buffered
          (omega arith)

    exact : add32 r.rcv_nxt count ≡ r.rcv_nxt + count
    exact = omega (arith, ready.fits)

pub insert_sorted-Ascends :
    (lo : ℕ) (seg : Segment) (buf : List Segment)
    → lo ≤ seg.sn
    → has_sn seg.sn buf ≡ false
    → Ascends lo buf
    → Ascends lo (insert_sorted seg buf)
insert_sorted-Ascends lo seg [] le new a = (le, tt)
insert_sorted-Ascends lo seg (s ∷ buf) le new a =
    ground (arith, insert_sorted-Ascends (suc s.sn) seg buf)
