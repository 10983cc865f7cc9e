-- ===== src/TimedSched/Heap/Down.antt =====
-- timesched.go:102, the `down` that heap.Pop runs.
use rudp_go.Common.{
  ℕ, zero, suc, ◌+◌, ◌-◌, ◌*◌, ◌≤◌, ◌<◌, ◌≡◌, ◌≢◌, ◌⊎◌, refl, List, arith, ltb, Bool-cases, inl,
  inr, length, exchanged, length-exchanged, entry-exchanged, Returns, Returns-mono, Returns-bind,
}
use rudp_go.TimedSched.Heap.{TimeFunc, no_task, parent, lower_child, down_loop, down}
use rudp_go.TimedSched.Heap.Order.{key, Sifted, settled, less-done, swap-done, Sifted-exchanged}

-- Only the edges from `i` to its children may be out of order.
pub record Sinking (n : ℕ) (h : List TimeFunc) (i : ℕ) : Type 0 where
  pub edges : (c : ℕ) → 0 < c → c < n → parent c ≢ i → key h (parent c) ≤ key h c
  pub across : (c : ℕ) → 0 < c → c < n → parent c ≡ i → 0 < i → key h (parent i) ≤ key h c

record LowerChild (n : ℕ) (h : List TimeFunc) (i m : ℕ) : Type 0 where
  below : m < n
  child : (m ≡ 2 * i + 1) ⊎ (m ≡ 2 * i + 2)
  least : (c : ℕ) → 0 < c → c < n → parent c ≡ i → key h m ≤ key h c

lower_child-LowerChild :
    (n : ℕ) (h : List TimeFunc) (i : ℕ)
    → n ≤ length h
    → 2 * i + 1 < n
    → Returns (lower_child h i n) (LowerChild n h i)
unfolding lower_child
lower_child-LowerChild n h i fits inside = elim (Bool-cases (ltb (2 * i + 1 + 1) n)) [
  | inl e ↦
      rw (e, less-done h (2 * i + 1 + 1) (2 * i + 1) (ground arith) (omega arith))
        (elim (Bool-cases (ltb (key h (2 * i + 1 + 1)) (key h (2 * i + 1)))) [
          | inl right ↦ rw right (record {
            below = ground arith;
            child = inr (omega arith);
            least = λ c p q r. ground arith;
          })
          | inr left ↦
              rw left (record { below = inside; child = inl refl; least = λ c p q r. ground arith })
        ])
  | inr e ↦ rw e (record { below = inside; child = inl refl; least = λ c p q r. ground arith })
]

sunk :
    (n : ℕ) (h : List TimeFunc) (i m : ℕ)
    → n ≤ length h
    → Sinking n h i
    → LowerChild n h i m
    → key h m < key h i
    → Sinking n (exchanged no_task h i m) m
sunk n h i m fits v s below =
    let inside : m < length h = omega (arith, s.below) in
    let seen = entry-exchanged no_task h i m (omega (arith, s.child)) inside in
    record {
      edges = λ c p q r.
          ground (arith, seen c, seen (parent c), v.edges c, v.across m, s.child, s.least c);
      across = λ c p q r t. ground (arith, seen c, seen (parent m), s.child, v.edges c);
    }

down_loop_sifts :
    (fuel n : ℕ) (h : List TimeFunc) (i : ℕ)
    → n ≤ length h
    → n - i < fuel
    → Sinking n h i
    → Returns (down_loop fuel h i n) (Sifted n h)
unfolding down_loop
down_loop_sifts zero n h i fits f v = absurd (omega arith)
down_loop_sifts (suc fuel) n h i fits f v = elim (Bool-cases (ltb (2 * i + 1) n)) [
  | inr e ↦ rw e (settled n h (λ c p q. ground (arith, v.edges c)))
  | inl e ↦ rw e (
      Returns-bind (lower_child h i n) _ (LowerChild n h i) (Sifted n h)
        (lower_child-LowerChild n h i fits (ground arith))
        (λ m s.
          let hi : i < length h = ground arith in
          let hm : m < length h = omega (arith, s.below) in
          rw (less-done h m i hm hi) (elim (Bool-cases (ltb (key h m) (key h i))) [
            | inr stay ↦ rw stay (settled n h (λ c p q. ground (arith, v.edges c, s.least c)))
            | inl sink ↦
                rw (sink, swap-done h i m hi hm)
                  (Returns-mono (down_loop fuel (exchanged no_task h i m) m n)
                    (Sifted n (exchanged no_task h i m)) (Sifted n h)
                    (down_loop_sifts fuel n (exchanged no_task h i m) m
                      (omega (arith, length-exchanged no_task h i m)) (omega (arith, s.child, f))
                      (sunk n h i m fits v s (ground arith)))
                    (λ g t. Sifted-exchanged h i m hi hm n g (ground arith) s.below t))
          ])))
]

pub down_sifts :
    (n : ℕ) (h : List TimeFunc) (i : ℕ)
    → n ≤ length h
    → Sinking n h i
    → Returns (down h i n) (Sifted n h)
unfolding down
down_sifts n h i fits v = down_loop_sifts (n + 1) n h i fits (omega arith) v
