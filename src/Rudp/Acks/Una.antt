-- ===== src/Rudp/Acks/Una.antt =====
-- parseUna: which segments leave the send buffer.
use rudp_go.Common.{
  ℕ, zero, suc, ◌≡◌, refl, ap, List, [], ◌∷◌, ◌++◌, length, take, drop, arith, Bool-cases, ltb,
  ltb→lt, lt→ltb, inl, inr, take-append-drop, sym, if◌then◌else◌,
}
use rudp_go.Wire.{Segment}
use rudp_go.Rudp.{Rudp, remove_front}
use rudp_go.Rudp.Numbers.{Ascends, Ascends-From, Below, From}
use rudp_go.Rudp.Acks.{una_count, parse_una}

-- The guard on the count makes no difference.
pub parse_una-eq :
    (una : ℕ) (r : Rudp)
    → parse_una una r
      ≡ (una_count una r.snd_buf, record r { snd_buf = drop (una_count una r.snd_buf) r.snd_buf })
unfolding parse_una
parse_una-eq una r = go (una_count una r.snd_buf)
  where
    go :
        (n : ℕ)
        → ◌≡◌ {A = ℕ × Rudp}
            (n, if ltb 0 n then record r { snd_buf = remove_front r.snd_buf n } else r)
            (n, record r { snd_buf = drop n r.snd_buf })
    go zero = refl
    go (suc n) = rw (lt→ltb 0 (suc n) (omega arith))

una_count-splits :
    (una lo : ℕ) (buf : List Segment)
    → Ascends lo buf
    → let n = una_count una buf in
      Below una (take n buf) × From una (drop n buf) × (length (take n buf) ≡ n)
unfolding una_count
una_count-splits una lo [] a = (tt, tt, refl)
una_count-splits una lo (s ∷ buf) a = elim (Bool-cases (ltb s.sn una)) [
  | inl below ↦
      let (taken, kept, size) = una_count-splits una (suc s.sn) buf a.1 in
      rw below ((ltb→lt _ _ below, taken), kept, ap suc size)
  | inr above ↦ rw above (tt, Ascends-From una (s ∷ buf) (ground arith, a.1), refl)
]

-- On a send buffer in rising order parseUna removes exactly the segments below `una`, returns how
-- many they are, and changes nothing else.
pub parse_una_lem :
    (una lo : ℕ) (r : Rudp)
    → Ascends lo r.snd_buf
    → let (count, r') = parse_una una r in
      (removed : List Segment) × (r.snd_buf ≡ removed ++ r'.snd_buf)
      × (count ≡ length removed)
      × Below una removed
      × From una r'.snd_buf
      × (r' ≡ record r { snd_buf = r'.snd_buf })
parse_una_lem una lo r a =
    let (below, above, size) = una_count-splits una lo r.snd_buf a in
    let n = una_count una r.snd_buf in
    rw (parse_una-eq una r)
      (take n r.snd_buf, sym (take-append-drop n r.snd_buf), sym size, below, above, refl)
