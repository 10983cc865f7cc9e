-- ===== src/Rudp/Send/Fragments.antt =====
-- What the fragments of a message hold, and how they are numbered.
use rudp_go.Common.{
  ℕ, zero, suc, ◌+◌, ◌-◌, ◌*◌, ◌/◌, ◌%◌, ◌≤◌, ◌<◌, ◌≡◌, ◌≢◌, ◌⊎◌, refl, ap, ◌∙◌, List, [], ◌∷◌,
  ◌++◌, length, take, drop, length-take, length-drop, take-append-drop, done, ◌>>=◌, Returns,
  Returns-bind, Returns-mono, Returns-done, ◌==◌, if◌then◌else◌, arith, le→leb, lt→not_==, eq→==,
  lt→not_leb, le→not_ltb, lt→ltb, ℤ, pos, negsuc, All,
}
use native.Mathlib.Decide.{dec_le, dec_lt}
use native.Mathlib.Nat.{div-add-mod', mod-lt}
use rudp_go.Wire.{Segment, zero_segment}
use rudp_go.Rudp.{Rudp, new_segment, mtu_limit}
use rudp_go.Rudp.Sized.{Sized, AtMost}
use rudp_go.Rudp.Send.{fragments, fragment_count, queue_fragments, send_fragments, send}

-- The bytes of segments, in order.
abbrev pub bytes_of : List Segment → List ℕ
bytes_of [] = []
bytes_of (s ∷ segs) = s.payload ++ bytes_of segs

-- Fragment numbers that count down to 0 at the last.
abbrev pub CountsDown : List Segment → Type 0
CountsDown [] = Unit {0}
CountsDown (s ∷ segs) = (s.frg ≡ length segs) × CountsDown segs

-- What `fragments` makes of a message.
pub record Splits (stream mss left : ℕ) (buffer : List ℕ) (segs : List Segment) : Type 0 where
  pub number : length segs ≡ left
  pub whole : bytes_of segs ≡ buffer
  pub fits : AtMost mss segs
  pub numbered : stream ≡ 0 → CountsDown segs
  pub plain : stream ≢ 0 → All (λ s. s.frg ≡ 0) segs

-- Enough rounds are left for the buffer, and not one too many.
abbrev Enough : ℕ → ℕ → ℕ → Type 0
Enough mss left n = (n ≤ left * mss) × (left * mss < n + mss)

few_enough : (m n k : ℕ) → n * m < k * m + m → n ≤ k
few_enough m n k h = elim (dec_le n k) [ yes le ↦ le | no gt ↦ absurd (grind arith) ]

factor_lt : (m k n : ℕ) → k * m < n * m → k < n
factor_lt m k n h = elim (dec_lt k n) [ yes lt ↦ lt | no ge ↦ absurd (grind arith) ]

-- One fragment in front of the rest.
cons-Splits :
    (stream mss left : ℕ) (buffer : List ℕ) (size : ℕ) (segs : List Segment)
    → size ≤ mss
    → left ≤ 254
    → Splits stream mss left (drop size buffer) segs
    → Splits stream mss (suc left) buffer (
        record zero_segment {
          frg = (if stream == 0 then left % 256 else 0);
          payload = take size buffer;
        }
        ∷ segs)
cons-Splits stream mss left buffer size segs le few s = record {
  number = ap suc s.number;
  whole = ap (◌++◌ (take size buffer)) s.whole ∙ take-append-drop size buffer;
  fits = (omega (arith, length-take size buffer), s.fits);
  numbered = λ e. (rw e (omega (arith, s.number)), s.numbered e);
  plain = λ e. (ground arith, s.plain e);
}

fragments-step :
    (stream mss left : ℕ) (buffer : List ℕ) (size : ℕ)
    → size ≤ mss
    → mss ≤ mtu_limit
    → left ≤ 254
    → Returns
        (fragments stream mss left (drop size buffer))
        (Splits stream mss left (drop size buffer))
    → Returns
        (new_segment (take size buffer) >>= λ bytes.
          fragments stream mss left (drop size buffer) >>= λ rest. done (
            record zero_segment { frg = (if stream == 0 then left % 256 else 0); payload = bytes }
            ∷ rest))
        (Splits stream mss (suc left) buffer)
fragments-step stream mss left buffer size le small few rest =
    rw (le→leb (length (take size buffer)) mtu_limit (omega (arith, length-take size buffer))) (
      Returns-bind (fragments stream mss left (drop size buffer)) _
        (Splits stream mss left (drop size buffer)) _ rest
        λ segs s. cons-Splits stream mss left buffer size segs le few s)

pub fragments-Splits :
    (stream mss left : ℕ) (buffer : List ℕ)
    → 0 < mss
    → mss ≤ mtu_limit
    → left ≤ 255
    → Enough mss left (length buffer)
    → Returns (fragments stream mss left buffer) (Splits stream mss left buffer)
unfolding fragments
fragments-Splits stream mss zero [] some small few h = record {
  number = refl;
  whole = refl;
  fits = tt;
  numbered = λ e. tt;
  plain = λ e. tt;
}
fragments-Splits stream mss zero (b ∷ buffer) some small few h = absurd (grind arith)
fragments-Splits stream mss (suc left) buffer some small few h = elim (dec_lt mss (length buffer)) [
  | yes more ↦ rw (lt→ltb _ _ more) (
      fragments-step stream mss left buffer mss (omega arith) small (omega arith) (
        fragments-Splits stream mss left (drop mss buffer) some small (omega arith)
          (omega (arith, length-drop mss buffer))))
  | no last ↦ rw (le→not_ltb mss (length buffer) (omega arith)) (
      fragments-step stream mss left buffer (length buffer) (omega arith) small (omega arith) (
        fragments-Splits stream mss left (drop (length buffer) buffer) some small (omega arith)
          (omega (arith, length-drop (length buffer) buffer))))
]

factor_pos : (q m : ℕ) → 0 < q * m → 0 < q
factor_pos zero m h = absurd (omega arith)
factor_pos (suc q) m h = omega arith

-- The number of fragments is the least that holds the message.
fragment_count-Enough :
    (mss len : ℕ)
    → 0 < mss
    → 0 < len
    → Returns (fragment_count mss len) (λ count. Enough mss count len × (0 < count))
unfolding fragment_count
fragment_count-Enough mss len some any = elim (dec_le len mss) [
  | yes one ↦ rw (le→leb _ _ one) (omega arith)
  | no many ↦
      rw (lt→not_leb len mss (omega arith), lt→not_== mss 0 some)
        (enough, factor_pos ((len + mss - 1) / mss) mss (omega (arith, enough.0)))
]
  where
    enough : Enough mss ((len + mss - 1) / mss) len
    enough = omega (arith, div-add-mod' (len + mss - 1) mss, mod-lt (len + mss - 1) some)

-- What a queued message adds to the send queue.
abbrev pub Queued : Rudp → List ℕ → ℤ × Rudp → Type 0
Queued r buffer x =
    (x.0 ≡ pos 0)
    × (segs : List Segment) × (x.1 ≡ record r { snd_queue = r.snd_queue ++ segs })
    × (length segs ≤ 255)
    × Splits r.stream r.mss (length segs) buffer segs

queue_fragments-Queued :
    (r : Rudp) (buffer : List ℕ) (count : ℕ)
    → Sized r
    → 0 < count
    → count ≤ 255
    → Enough r.mss count (length buffer)
    → Returns (queue_fragments r buffer count) (Queued r buffer)
unfolding queue_fragments
queue_fragments-Queued r buffer count v some few h =
    rw (le→not_ltb 255 count few, lt→not_== count 0 some)
      (Returns-bind (fragments r.stream r.mss count buffer) _ (Splits r.stream r.mss count buffer) _
        (fragments-Splits r.stream r.mss count buffer v.some_data v.pooled few h)
        λ segs s. (
          refl,
          segs,
          refl,
          omega (arith, s.number),
          record {
            number = refl;
            whole = s.whole;
            fits = s.fits;
            numbered = s.numbered;
            plain = s.plain;
          },
        ))

pub send_fragments-Queued :
    (r : Rudp) (buffer : List ℕ)
    → Sized r
    → 0 < length buffer
    → length buffer ≤ 255 * r.mss
    → Returns (send_fragments r buffer) (Queued r buffer)
unfolding send_fragments
send_fragments-Queued r buffer v any h =
    Returns-bind (fragment_count r.mss (length buffer)) _
      (λ count. Enough r.mss count (length buffer) × (0 < count)) _
      (fragment_count-Enough r.mss (length buffer) v.some_data any)
      λ count e.
        queue_fragments-Queued r buffer count v e.1
          (few_enough r.mss count 255 (omega (arith, h, e.0.1))) e.0

pub send-Queued :
    (r : Rudp) (buffer : List ℕ)
    → Sized r
    → r.stream ≡ 0
    → 0 < length buffer
    → length buffer ≤ 255 * r.mss
    → Returns (send r buffer) (Queued r buffer)
unfolding send
send-Queued r [] v e any h = absurd (omega arith)
send-Queued r (b ∷ bs) v e any h =
    rw (eq→== r.stream 0 e) (send_fragments-Queued r (b ∷ bs) v any h)

-- The fragments of a message behind the send queue, and nothing else.
abbrev pub Fragmented : Rudp → List ℕ → ℤ × Rudp → Type 0
Fragmented r buffer x =
    (x.0 ≡ pos 0)
    × (segs : List Segment) × (x.1 ≡ record r { snd_queue = r.snd_queue ++ segs })
    × (bytes_of segs ≡ buffer)
    × AtMost r.mss segs
    × CountsDown segs
    × (length segs ≤ 255)

-- With sound sizes, `Send` in message mode of 1 to 255 * mss bytes returns 0 and puts at most 255
-- fragments behind the send queue, and does nothing else: their data is the message, cut in pieces
-- of at most mss bytes, and their fragment numbers count down to 0.
pub send_lem :
    (r : Rudp) (buffer : List ℕ)
    → Sized r
    → r.stream ≡ 0
    → 0 < length buffer
    → length buffer ≤ 255 * r.mss
    → Returns (send r buffer) (Fragmented r buffer)
send_lem r buffer v e any h =
    Returns-mono (send r buffer) (Queued r buffer) (Fragmented r buffer)
      (send-Queued r buffer v e any h)
      λ x (code, segs, state, few, s). (code, segs, state, s.whole, s.fits, s.numbered e, few)

-- More than 255 fragments are refused.
pub send_fragments_refuses :
    (r : Rudp) (buffer : List ℕ)
    → 0 < r.mss
    → 255 * r.mss < length buffer
    → send_fragments r buffer ≡ done (negsuc 1, r)
unfolding send_fragments queue_fragments
send_fragments_refuses r buffer some h =
    let (count, e, enough) =
      Returns-done (fragment_count r.mss (length buffer))
        (λ count. Enough r.mss count (length buffer) × (0 < count))
        (fragment_count-Enough r.mss (length buffer) some (omega arith)) in
    rw (e, lt→ltb 255 count (factor_lt r.mss 255 count (omega (arith, h, enough.0.0))))

-- With a positive mss, in message mode, an empty message is refused with -1, and one that 255
-- segments cannot hold with -2; the state stays as it was.
pub send_refuses :
    (r : Rudp) (buffer : List ℕ)
    → 0 < r.mss
    → r.stream ≡ 0
    → (length buffer ≡ 0) ⊎ (255 * r.mss < length buffer)
    → send r buffer ≡ done (if length buffer == 0 then negsuc 0 else negsuc 1, r)
unfolding send
send_refuses r [] some e h = refl
send_refuses r (b ∷ bs) some e h =
    rw (eq→== r.stream 0 e, lt→not_== (suc (length bs)) 0 (omega arith))
      (send_fragments_refuses r (b ∷ bs) some (omega (arith, h)))
