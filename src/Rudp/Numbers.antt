-- ===== src/Rudp/Numbers.antt =====
-- Orders of sequence numbers in the buffers and queues of rudp.go.
use rudp_go.Common.{
  ℕ, zero, suc, ◌+◌, ◌≤◌, ◌<◌, ◌≡◌, List, [], ◌∷◌, ◌++◌, length, drop, All, arith, ◌∙◌,
}
use rudp_go.Wire.{Segment}
use rudp_go.Rudp.{Rudp}

-- The numbers rise, from `lo` on.
abbrev pub Ascends : ℕ → List Segment → Type 0
Ascends lo [] = Unit {0}
Ascends lo (s ∷ buf) = (lo ≤ s.sn) × Ascends (suc s.sn) buf

-- The numbers are `n`, `n + 1` and so on, without a gap.
abbrev pub Consecutive : ℕ → List Segment → Type 0
Consecutive n [] = Unit {0}
Consecutive n (s ∷ buf) = (s.sn ≡ n) × Consecutive (suc n) buf

abbrev pub Below : ℕ → List Segment → Type 0
Below hi = All (λ s. s.sn < hi)

abbrev pub From : ℕ → List Segment → Type 0
From lo = All (λ s. lo ≤ s.sn)

pub Ascends-mono : {lo lo' : ℕ} (buf : List Segment) → lo' ≤ lo → Ascends lo buf → Ascends lo' buf
Ascends-mono [] h a = tt
Ascends-mono (s ∷ buf) h a = (omega arith, a.1)

pub Ascends-From : (lo : ℕ) (buf : List Segment) → Ascends lo buf → From lo buf
Ascends-From lo [] a = tt
Ascends-From lo (s ∷ buf) a = (a.0, Ascends-From lo buf (Ascends-mono buf (omega arith) a.1))

pub Ascends-drop : (lo n : ℕ) (buf : List Segment) → Ascends lo buf → Ascends lo (drop n buf)
Ascends-drop lo zero buf a = a
Ascends-drop lo (suc n) [] a = tt
Ascends-drop lo (suc n) (s ∷ buf) a = Ascends-drop lo n buf (Ascends-mono buf (omega arith) a.1)

pub Consecutive-append :
    (n m : ℕ) (xs ys : List Segment)
    → Consecutive n xs
    → m ≡ n + length xs
    → Consecutive m ys
    → Consecutive n (xs ++ ys)
Consecutive-append n m [] ys hx e hy = let e' : m ≡ n = omega arith in rw (← e') hy
Consecutive-append n m (x ∷ xs) ys hx e hy =
    (hx.0, Consecutive-append (suc n) m xs ys hx.1 (omega arith) hy)

pub Consecutive-drop :
    (n k m : ℕ) (xs : List Segment) → m ≡ n + k → Consecutive n xs → Consecutive m (drop k xs)
Consecutive-drop n zero m xs e h = let e' : m ≡ n = omega arith in rw e' h
Consecutive-drop n (suc k) m [] e h = tt
Consecutive-drop n (suc k) m (x ∷ xs) e h = Consecutive-drop (suc n) k m xs (omega arith) h.1

pub Consecutive-Ascends : (n : ℕ) (xs : List Segment) → Consecutive n xs → Ascends n xs
Consecutive-Ascends n [] h = tt
Consecutive-Ascends n (x ∷ xs) h =
    (omega arith, Ascends-mono xs (omega arith) (Consecutive-Ascends (suc n) xs h.1))

-- The send buffer holds the numbers from `snd_una` to `snd_nxt`, each once, in order.
pub record IsNumbered (r : Rudp) : Type 0 where
  pub in_order : Consecutive r.snd_una r.snd_buf
  pub complete : r.snd_una + length r.snd_buf ≡ r.snd_nxt

-- What acknowledgements do to the send side: its start moves up, its end and its queue stay.
pub record Advances (r r' : Rudp) : Type 0 where
  pub numbered : IsNumbered r'
  pub start : r.snd_una ≤ r'.snd_una
  pub same_end : r'.snd_nxt ≡ r.snd_nxt
  pub same_queue : r'.snd_queue ≡ r.snd_queue
  pub same_wnd : r'.snd_wnd ≡ r.snd_wnd

pub Advances-trans : (a b c : Rudp) → Advances a b → Advances b c → Advances a c
Advances-trans a b c f g = record {
  numbered = g.numbered;
  start = omega (arith, f.start, g.start);
  same_end = g.same_end ∙ f.same_end;
  same_queue = g.same_queue ∙ f.same_queue;
  same_wnd = g.same_wnd ∙ f.same_wnd;
}

-- The send side as it was.
pub record Unmoved (r r' : Rudp) : Type 0 where
  pub una : r'.snd_una ≡ r.snd_una
  pub nxt : r'.snd_nxt ≡ r.snd_nxt
  pub queue : r'.snd_queue ≡ r.snd_queue
  pub buf : r'.snd_buf ≡ r.snd_buf
  pub wnd : r'.snd_wnd ≡ r.snd_wnd

pub Unmoved-Advances : (r r' : Rudp) → Unmoved r r' → IsNumbered r → Advances r r'
Unmoved-Advances r r' e v = record {
  numbered = record {
    in_order = rw (e.una, e.buf) v.in_order;
    complete = rw (e.una, e.buf, e.nxt) v.complete;
  };
  start = omega (arith, e.una);
  same_end = e.nxt;
  same_queue = e.queue;
  same_wnd = e.wnd;
}
