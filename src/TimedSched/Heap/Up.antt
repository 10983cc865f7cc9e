-- ===== src/TimedSched/Heap/Up.antt =====
-- timesched.go:90, the `up` that heap.Push runs.
use rudp_go.Common.{
  ℕ, zero, suc, ◌+◌, ◌≤◌, ◌<◌, ◌≡◌, ◌≢◌, ◌==◌, List, arith, ltb, Bool-cases, inl, inr, length,
  exchanged, length-exchanged, entry-exchanged, Returns, Returns-mono,
}
use rudp_go.TimedSched.Heap.{TimeFunc, no_task, parent, up_loop, up}
use rudp_go.TimedSched.Heap.Order.{key, Sifted, settled, less-done, swap-done, Sifted-exchanged}

-- Only the edge from `j` to its parent may be out of order.
pub record Rising (h : List TimeFunc) (j : ℕ) : Type 0 where
  pub inside : j < length h
  pub edges : (c : ℕ) → 0 < c → c < length h → c ≢ j → key h (parent c) ≤ key h c
  pub across : (c : ℕ) → 0 < c → c < length h → parent c ≡ j → 0 < j → key h (parent j) ≤ key h c

raised :
    (h : List TimeFunc) (j : ℕ)
    → Rising h j
    → 0 < j
    → key h j < key h (parent j)
    → Rising (exchanged no_task h (parent j) j) (parent j)
raised h j v pos below =
    let size = length-exchanged no_task h (parent j) j in
    let seen = entry-exchanged no_task h (parent j) j (omega (arith, v.inside)) v.inside in
    record {
      inside = omega (arith, v.inside);
      edges = λ c p q r. ground (arith, seen c, seen (parent c), v.edges c, v.across c);
      across = λ c p q r t.
          ground (arith, seen c, seen (parent (parent j)), v.edges c, v.edges (parent j));
    }

up_loop_sifts :
    (fuel : ℕ) (h : List TimeFunc) (j : ℕ)
    → j < fuel
    → Rising h j
    → Returns (up_loop fuel h j) (Sifted (length h) h)
unfolding up_loop
up_loop_sifts zero h j f v = absurd (omega arith)
up_loop_sifts (suc fuel) h j f v = elim (Bool-cases (parent j == j)) [
  | inl e ↦ rw e (settled (length h) h (λ c p q. v.edges c p q (ground arith)))
  | inr e ↦
      let above : parent j < length h = omega (arith, v.inside) in
      rw (e, less-done h j (parent j) v.inside above)
        (elim (Bool-cases (ltb (key h j) (key h (parent j)))) [
          | inl below ↦
              rw (below, swap-done h (parent j) j above v.inside)
                (Returns-mono (up_loop fuel (exchanged no_task h (parent j) j) (parent j))
                  (Sifted (length (exchanged no_task h (parent j) j))
                    (exchanged no_task h (parent j) j))
                  (Sifted (length h) h)
                  (up_loop_sifts fuel (exchanged no_task h (parent j) j) (parent j) (ground arith)
                    (raised h j v (ground arith) (ground arith)))
                  (λ g s.
                    Sifted-exchanged h (parent j) j above v.inside (length h) g above v.inside
                      (rw (length-exchanged no_task h (parent j) j) at s)))
          | inr e' ↦ rw e' (settled (length h) h (λ c p q. ground (arith, v.edges c)))
        ])
]

pub up_sifts : (h : List TimeFunc) (j : ℕ) → Rising h j → Returns (up h j) (Sifted (length h) h)
unfolding up
up_sifts h j v = up_loop_sifts (j + 1) h j (omega arith) v
