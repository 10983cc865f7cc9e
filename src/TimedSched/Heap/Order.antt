-- ===== src/TimedSched/Heap/Order.antt =====
-- timesched.go, the heap order by `Less` of the first entries of a `timeFuncHeap`.
use mathlib.Core.List.{Perm}
use mathlib.Core.List.Perm
use rudp_go.Common.{
  ℕ, zero, suc, ◌≤◌, ◌<◌, ◌≡◌, refl, ◌∙◌, List, done, ltb, arith, length, entry, exchanged,
  length-exchanged, entry-exchanged, exchanged-perm, index-done,
}
use rudp_go.TimedSched.Heap.{TimeFunc, no_task, parent, less, swap}

abbrev pub key : List TimeFunc → ℕ → ℕ
key h i = (entry no_task h i).ts

abbrev pub IsHeapTo : ℕ → List TimeFunc → Type 0
IsHeapTo n h = (c : ℕ) → 0 < c → c < n → key h (parent c) ≤ key h c

abbrev pub IsHeap : List TimeFunc → Type 0
IsHeap h = IsHeapTo (length h) h

-- `g` holds what `h` does, in order up to `n` and untouched from there.
pub record Sifted (n : ℕ) (h g : List TimeFunc) : Type 0 where
  pub ordered : IsHeapTo n g
  pub same : Perm g h
  pub size : length g ≡ length h
  pub kept : (c : ℕ) → n ≤ c → entry no_task g c ≡ entry no_task h c

pub settled : (n : ℕ) (h : List TimeFunc) → IsHeapTo n h → Sifted n h h
settled n h o = record { ordered = o; same = Perm.rfl; size = refl; kept = λ c e. refl }

module _ (h : List TimeFunc) (i j : ℕ) (hi : i < length h) (hj : j < length h) where
  pub less-done : less h i j ≡ done (ltb (key h i) (key h j))
  unfolding less
  less-done = rw (index-done no_task h i hi, index-done no_task h j hj)

  pub swap-done : swap h i j ≡ done (exchanged no_task h i j)
  unfolding swap
  swap-done = rw (index-done no_task h i hi, index-done no_task h j hj)

  pub Sifted-exchanged :
      (n : ℕ) (g : List TimeFunc)
      → i < n
      → j < n
      → Sifted n (exchanged no_task h i j) g
      → Sifted n h g
  Sifted-exchanged n g in₁ in₂ s = record {
    ordered = s.ordered;
    same = Perm.trans s.same (exchanged-perm no_task h i j hi hj);
    size = s.size ∙ length-exchanged no_task h i j;
    kept = λ c e. ground (arith, s.kept c e, entry-exchanged no_task h i j hi hj c);
  }

root_least_below :
    (k n : ℕ) (h : List TimeFunc) (i : ℕ) → IsHeapTo n h → i < k → i < n → key h 0 ≤ key h i
root_least_below zero n h i o f e = absurd (omega arith)
root_least_below (suc k) n h i o f e = ground (arith, o i, root_least_below k n h (parent i) o)

pub root_least : (n : ℕ) (h : List TimeFunc) (i : ℕ) → IsHeapTo n h → i < n → key h 0 ≤ key h i
root_least n h i o e = root_least_below (suc i) n h i o (omega arith) e
