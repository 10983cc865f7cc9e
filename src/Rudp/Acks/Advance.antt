-- ===== src/Rudp/Acks/Advance.antt =====
-- Acknowledgements and the numbers in flight.
use rudp_go.Common.{
  ℕ, suc, ◌+◌, ◌≤◌, ◌≡◌, refl, List, [], ◌∷◌, length, drop, length-drop, arith, ltb, leb, ◌||◌,
  Bool-cases, inl, inr,
}
use rudp_go.Wire.{Segment}
use rudp_go.Rudp.{Rudp}
use rudp_go.Rudp.Numbers.{Consecutive, Consecutive-drop, IsNumbered, Advances, Unmoved}
use rudp_go.Rudp.Acks.Una.{parse_una-eq}
use rudp_go.Rudp.Acks.{
  una_count, parse_una, first_sn, update_snd_una, mark_acked, parse_ack, count_skipped,
  parse_fast_ack, push_ack,
}

una_count-bound : (una : ℕ) (buf : List Segment) → una_count una buf ≤ length buf
unfolding una_count
una_count-bound una [] = omega arith
una_count-bound una (s ∷ buf) = ground (arith, una_count-bound una buf)

first_sn_lem :
    (n nxt : ℕ) (buf : List Segment)
    → Consecutive n buf
    → n + length buf ≡ nxt
    → first_sn buf nxt ≡ n
unfolding first_sn
first_sn_lem n nxt [] c e = omega arith
first_sn_lem n nxt (s ∷ buf) c e = c.0

-- parseUna and updateSndUna together.
pub parse_una-Advances :
    (una : ℕ) (r : Rudp) → IsNumbered r → Advances r (update_snd_una (parse_una una r).1)
unfolding update_snd_una
parse_una-Advances una r v = rw (parse_una-eq una r) (record {
  numbered = record { in_order = rw first rest; complete = rw first size };
  start = rw first (omega arith);
  same_end = refl;
  same_queue = refl;
  same_wnd = refl;
})
  where
    n : ℕ
    n = una_count una r.snd_buf

    rest : Consecutive (r.snd_una + n) (drop n r.snd_buf)
    rest = Consecutive-drop r.snd_una n (r.snd_una + n) r.snd_buf refl v.in_order

    size : r.snd_una + n + length (drop n r.snd_buf) ≡ r.snd_nxt
    size = omega (arith, v.complete, length-drop n r.snd_buf, una_count-bound una r.snd_buf)

    first : first_sn (drop n r.snd_buf) r.snd_nxt ≡ r.snd_una + n
    first = first_sn_lem (r.snd_una + n) r.snd_nxt (drop n r.snd_buf) rest size

mark_acked-Consecutive :
    (sn n : ℕ) (buf : List Segment)
    → Consecutive n buf
    → Consecutive n (mark_acked sn buf) × (length (mark_acked sn buf) ≡ length buf)
unfolding mark_acked
mark_acked-Consecutive sn n [] c = (tt, refl)
mark_acked-Consecutive sn n (s ∷ buf) c =
    let rest = mark_acked-Consecutive sn (suc n) buf c.1 in ground arith

count_skipped-Consecutive :
    (sn ts n : ℕ) (buf : List Segment)
    → Consecutive n buf
    → Consecutive n (count_skipped sn ts buf) × (length (count_skipped sn ts buf) ≡ length buf)
unfolding count_skipped
count_skipped-Consecutive sn ts n [] c = (tt, refl)
count_skipped-Consecutive sn ts n (s ∷ buf) c =
    let rest = count_skipped-Consecutive sn ts (suc n) buf c.1 in ground arith

-- Another send buffer with the same numbers.
renumbered :
    (r : Rudp) (buf : List Segment)
    → IsNumbered r
    → Consecutive r.snd_una buf × (length buf ≡ length r.snd_buf)
    → Advances r (record r { snd_buf = buf })
renumbered r buf v h = record {
  numbered = record { in_order = h.0; complete = omega (arith, h.1, v.complete) };
  start = omega arith;
  same_end = refl;
  same_queue = refl;
  same_wnd = refl;
}

pub unchanged : (r : Rudp) → IsNumbered r → Advances r r
unchanged r v = renumbered r r.snd_buf v (v.in_order, refl)

pub parse_ack-Advances : (sn : ℕ) (r : Rudp) → IsNumbered r → Advances r (parse_ack sn r)
unfolding parse_ack
parse_ack-Advances sn r v = elim (Bool-cases (ltb sn r.snd_una || leb r.snd_nxt sn)) [
  | inl outside ↦ rw outside (unchanged r v)
  | inr inside ↦
      rw inside (renumbered r _ v (mark_acked-Consecutive sn r.snd_una r.snd_buf v.in_order))
]

pub parse_fast_ack-Advances :
    (sn ts : ℕ) (r : Rudp) → IsNumbered r → Advances r (parse_fast_ack sn ts r)
unfolding parse_fast_ack
parse_fast_ack-Advances sn ts r v = elim (Bool-cases (ltb sn r.snd_una || leb r.snd_nxt sn)) [
  | inl outside ↦ rw outside (unchanged r v)
  | inr inside ↦
      rw inside (renumbered r _ v (count_skipped-Consecutive sn ts r.snd_una r.snd_buf v.in_order))
]

pub push_ack-Unmoved : (sn ts : ℕ) (r : Rudp) → Unmoved r (push_ack sn ts r)
unfolding push_ack
push_ack-Unmoved sn ts r = record { una = refl; nxt = refl; queue = refl; buf = refl; wnd = refl }
