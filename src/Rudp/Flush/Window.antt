-- ===== src/Rudp/Flush/Window.antt =====
-- The send window of `flush`: what moves from the send queue to the send buffer.
use rudp_go.Common.{
  ℕ, suc, ◌+◌, ◌%◌, ◌^◌, ◌≤◌, ◌<◌, ◌≡◌, ◌⊎◌, refl, ap, sym, ◌∙◌, List, [], ◌∷◌, ◌++◌, append_assoc,
  length, length-append, drop, leb, Bool-cases, inl, inr, arith, add32, false,
}
use rudp_go.Wire.{Segment}
use rudp_go.Rudp.{Rudp, max}
use rudp_go.Rudp.Numbers.{Consecutive, Consecutive-append, IsNumbered}
use rudp_go.Rudp.Send.Fragments.{bytes_of}
use rudp_go.Rudp.Send.Stream.{bytes_of-append}
use rudp_go.Rudp.Flush.{admit, fill_window}

-- No number that a flush with the window `cwnd` can give out reaches 2 ^ 32.
abbrev pub NoSendWrap : ℕ → Rudp → Type 0
NoSendWrap cwnd r = (r.snd_una + cwnd < 2 ^ 32) × (r.snd_nxt + length r.snd_queue < 2 ^ 32)

-- What the window admits.
record Admitted (limit nxt : ℕ) (q new : List Segment) : Type 0 where
  in_order : Consecutive nxt new
  some_of : length new ≤ length q
  bounded : nxt + length new ≤ max nxt limit
  all_due : (drop (length new) q ≡ []) ⊎ (limit ≤ nxt + length new)
  bytes : bytes_of new ++ bytes_of (drop (length new) q) ≡ bytes_of q

grows :
    (nxt limit n : ℕ)
    → leb limit nxt ≡ false
    → suc nxt + n ≤ max (suc nxt) limit
    → nxt + suc n ≤ max nxt limit
grows nxt limit n wide h = ground arith

admit_lem :
    (r : Rudp) (limit nxt : ℕ) (q : List Segment)
    → nxt + length q < 2 ^ 32
    → Admitted limit nxt q (admit r limit nxt q)
unfolding admit
admit_lem r limit nxt [] h = record {
  in_order = tt;
  some_of = omega arith;
  bounded = ground arith;
  all_due = inl refl;
  bytes = refl;
}
admit_lem r limit nxt (s ∷ q) h = elim (Bool-cases (leb limit nxt)) [
  | inl closed ↦ rw closed (record {
    in_order = tt;
    some_of = omega arith;
    bounded = ground arith;
    all_due = inr (ground arith);
    bytes = refl;
  })
  | inr wide ↦
      let next : add32 nxt 1 ≡ suc nxt = omega arith in
      let rest = admit_lem r limit (suc nxt) q (omega arith) in
      rw (wide, next)
        (record {
          in_order = (refl, rest.in_order);
          some_of = omega (arith, rest.some_of);
          bounded = grows nxt limit _ wide rest.bounded;
          all_due = elim rest.all_due [ inl none ↦ inl none | inr due ↦ inr (omega arith) ];
          bytes = append_assoc s.payload _ _ ∙ ap (◌++◌ s.payload) rest.bytes;
        })
]

-- What a flush does to the send side.
pub record Filled (r r' : Rudp) (cwnd : ℕ) : Type 0 where
  pub numbered : IsNumbered r'
  pub same_start : r'.snd_una ≡ r.snd_una
  pub bounded : length r'.snd_buf ≤ max (length r.snd_buf) cwnd
  pub used_up : (r'.snd_queue ≡ []) ⊎ (cwnd ≤ length r'.snd_buf)
  pub bytes :
      bytes_of r'.snd_buf ++ bytes_of r'.snd_queue ≡ bytes_of r.snd_buf ++ bytes_of r.snd_queue

shift_bound :
    (una len new nxt cwnd : ℕ)
    → una + len ≡ nxt
    → nxt + new ≤ max nxt (una + cwnd)
    → len + new ≤ max len cwnd
shift_bound una len new nxt cwnd e h = ground arith

pub fill_window_lem :
    (cwnd : ℕ) (r : Rudp) → IsNumbered r → NoSendWrap cwnd r → Filled r (fill_window cwnd r).1 cwnd
unfolding fill_window
fill_window_lem cwnd r v h =
    let limit : add32 r.snd_una cwnd ≡ r.snd_una + cwnd = omega arith in
    rw limit (built (admit_lem r (r.snd_una + cwnd) r.snd_nxt r.snd_queue h.1))
  where
    new : List Segment
    new = admit r (r.snd_una + cwnd) r.snd_nxt r.snd_queue

    due :
        (drop (length new) r.snd_queue ≡ []) ⊎ (r.snd_una + cwnd ≤ r.snd_nxt + length new)
        → (drop (length new) r.snd_queue ≡ []) ⊎ (cwnd ≤ length (r.snd_buf ++ new))
    due (inl none) = inl none
    due (inr reached) = inr (omega (arith, length-append r.snd_buf new, v.complete))

    built :
        Admitted (r.snd_una + cwnd) r.snd_nxt r.snd_queue new
        → Filled r
            (record r {
              snd_nxt = (r.snd_nxt + length new) % 2 ^ 32;
              snd_queue = drop (length new) r.snd_queue;
              snd_buf = r.snd_buf ++ new;
            })
            cwnd
    built a = record {
      numbered = record {
        in_order =
            Consecutive-append r.snd_una r.snd_nxt r.snd_buf new v.in_order (sym v.complete)
              a.in_order;
        complete = omega (arith, length-append r.snd_buf new, v.complete, a.some_of);
      };
      same_start = refl;
      bounded = rw (length-append r.snd_buf new) (
          shift_bound r.snd_una (length r.snd_buf) (length new) r.snd_nxt cwnd v.complete
            a.bounded);
      used_up = due a.all_due;
      bytes =
          ap (λ u. u ++ bytes_of (drop (length new) r.snd_queue)) (bytes_of-append r.snd_buf new)
          ∙ append_assoc (bytes_of r.snd_buf) (bytes_of new)
              (bytes_of (drop (length new) r.snd_queue))
          ∙ ap (◌++◌ (bytes_of r.snd_buf)) a.bytes;
    }
