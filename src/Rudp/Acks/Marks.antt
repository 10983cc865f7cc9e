-- ===== src/Rudp/Acks/Marks.antt =====
-- parseAck and parseFastAck: which segments they mark.
use rudp_go.Common.{
  ℕ, suc, ◌<◌, ◌≡◌, refl, List, [], ◌∷◌, arith, Bool, Bool-cases, ltb, leb, ◌==◌, inl, inr,
  if◌then◌else◌, ◌&&◌, ◌||◌, not, add32,
}
use mathlib.Core.List.{map}
use mathlib.Core.Path.{ap₂}
use rudp_go.Wire.{Segment}
use rudp_go.Rudp.{Rudp}
use rudp_go.Rudp.Numbers.{Ascends}
use rudp_go.Rudp.Acks.{mark_acked, parse_ack, count_skipped, parse_fast_ack}

-- An acknowledgement is considered if its number is in flight.
abbrev pub in_flight : ℕ → Rudp → Bool
in_flight sn r = not (ltb sn r.snd_una || leb r.snd_nxt sn)

-- What an acknowledgement of `sn` means for one segment.
abbrev pub acked_by : ℕ → Segment → Segment
acked_by sn s = if s.sn == sn then record s { acked = 1; payload = [] } else s

-- What an acknowledgement of `sn` for a segment sent at `ts` means for the segments before it.
abbrev pub skipped_by : ℕ → ℕ → Segment → Segment
skipped_by sn ts s =
    if ltb s.sn sn && leb s.ts ts then record s { fastack = add32 s.fastack 1 } else s

map_above :
    (sn lo : ℕ) (buf : List Segment) (f : Segment → Segment)
    → ((s : Segment) → sn < s.sn → f s ≡ s)
    → sn < lo
    → Ascends lo buf
    → map f buf ≡ buf
map_above sn lo [] f fix h a = refl
map_above sn lo (s ∷ buf) f fix h a =
    ap₂ ◌∷◌ (fix s (omega arith)) (map_above sn (suc s.sn) buf f fix (omega arith) a.1)

acked_above : (sn : ℕ) (s : Segment) → sn < s.sn → acked_by sn s ≡ s
acked_above sn s h = ground arith

skipped_above : (sn ts : ℕ) (s : Segment) → sn < s.sn → skipped_by sn ts s ≡ s
skipped_above sn ts s h = ground arith

mark_acked-map :
    (sn lo : ℕ) (buf : List Segment) → Ascends lo buf → mark_acked sn buf ≡ map (acked_by sn) buf
unfolding mark_acked
mark_acked-map sn lo [] a = refl
mark_acked-map sn lo (s ∷ buf) a = ground (
  arith,
  mark_acked-map sn (suc s.sn) buf a.1,
  map_above sn (suc s.sn) buf (acked_by sn) (acked_above sn),
)

count_skipped-map :
    (sn ts lo : ℕ) (buf : List Segment)
    → Ascends lo buf
    → count_skipped sn ts buf ≡ map (skipped_by sn ts) buf
unfolding count_skipped
count_skipped-map sn ts lo [] a = refl
count_skipped-map sn ts lo (s ∷ buf) a = ground (
  arith,
  count_skipped-map sn ts (suc s.sn) buf a.1,
  map_above sn (suc s.sn) buf (skipped_by sn ts) (skipped_above sn ts),
)

-- parseAck on a send buffer in rising order: an acknowledgement of a number in flight marks every
-- segment of that number as acknowledged and drops its data; one of any other number does nothing.
pub parse_ack_lem :
    (sn lo : ℕ) (r : Rudp)
    → Ascends lo r.snd_buf
    → parse_ack sn r
      ≡ record r { snd_buf = (if in_flight sn r then map (acked_by sn) r.snd_buf else r.snd_buf) }
unfolding parse_ack
parse_ack_lem sn lo r a = elim (Bool-cases (ltb sn r.snd_una || leb r.snd_nxt sn)) [
  | inl out ↦ rw out refl
  | inr in_window ↦ rw (in_window, mark_acked-map sn lo r.snd_buf a) refl
]

-- parseFastAck on a send buffer in rising order: an acknowledgement of a number in flight adds one
-- to the skip count of every segment with a smaller number that was sent no later than the time
-- which the acknowledgement carries, and of no other; one of any other number does nothing.
pub parse_fast_ack_lem :
    (sn ts lo : ℕ) (r : Rudp)
    → Ascends lo r.snd_buf
    → parse_fast_ack sn ts r ≡ record r {
      snd_buf = (if in_flight sn r then map (skipped_by sn ts) r.snd_buf else r.snd_buf);
    }
unfolding parse_fast_ack
parse_fast_ack_lem sn ts lo r a = elim (Bool-cases (ltb sn r.snd_una || leb r.snd_nxt sn)) [
  | inl out ↦ rw out refl
  | inr in_window ↦ rw (in_window, count_skipped-map sn ts lo r.snd_buf a) refl
]
