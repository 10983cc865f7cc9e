-- ===== src/TimedSched/Heap/Queue.antt =====
-- timesched.go:90 and 102, heap.Push and heap.Pop on the tasks of a worker.
use mathlib.Core.List.{Perm, perm_append_singleton}
use mathlib.Core.List.Perm
use rudp_go.Common.{
  ℕ, suc, ◌-◌, ◌≤◌, ◌<◌, ◌≡◌, refl, List, [], ◌∷◌, arith, length, length-append, take, take-set,
  take-last, entry, entry-append, entry-take, exchanged, length-exchanged, entry-exchanged,
  exchanged-perm, index-done, Returns, Returns-mono, Returns-bind, none, length-take,
}
use rudp_go.TimedSched.Heap.{TimeFunc, no_task, parent, up, down, push_back, pop_back, push, pop}
use rudp_go.TimedSched.Heap.Order.{key, IsHeap, IsHeapTo, Sifted, swap-done, root_least}
use rudp_go.TimedSched.Heap.Up.{up_sifts}
use rudp_go.TimedSched.Heap.Down.{down_sifts}

pub record Pushed (h : List TimeFunc) (x : TimeFunc) (g : List TimeFunc) : Type 0 where
  pub ordered : IsHeap g
  pub same : Perm g (x ∷ h)
  pub size : length g ≡ suc (length h)

-- heap.Push on a heap: it returns, and the result is a heap that holds the new task and the others.
pub push_lem : (h : List TimeFunc) (x : TimeFunc) → IsHeap h → Returns (push h x) (Pushed h x)
unfolding push
push_lem h x o =
    let size : length (push_back h x) ≡ suc (length h) = omega (arith, length-append h (x ∷ [])) in
    let old = entry-append no_task h (x ∷ []) in
    Returns-mono (up (push_back h x) (length (push_back h x) - 1))
      (Sifted (length (push_back h x)) (push_back h x)) (Pushed h x)
      (up_sifts (push_back h x) (length (push_back h x) - 1) (record {
        inside = omega arith;
        edges = λ c p q r. ground (arith, o c, old c, old (parent c));
        across = λ c p q r t. absurd (omega arith);
      }))
      (λ g s. record {
        ordered = λ c p q. s.ordered c p (omega (arith, s.size));
        same = Perm.trans s.same (perm_append_singleton x h);
        size = omega (arith, s.size);
      })

pub record Popped (h : List TimeFunc) (r : TimeFunc × List TimeFunc) : Type 0 where
  pub ordered : IsHeap r.1
  pub same : Perm (r.0 ∷ r.1) h
  pub size : suc (length r.1) ≡ length h
  pub first : r.0 ≡ entry no_task h 0
  pub least : (i : ℕ) → i < length h → r.0.ts ≤ key h i

-- The last entry of a slice taken off.
cut :
    (n : ℕ) (h g : List TimeFunc)
    → length h ≡ suc n
    → IsHeapTo (suc n) h
    → Sifted n (exchanged no_task h 0 n) g
    → Returns (pop_back g) (Popped h)
unfolding pop_back
cut n h g size o s =
    let long : length g ≡ suc n = omega (arith, s.size, length-exchanged no_task h 0 n) in
    let one : length g - 1 ≡ n = omega arith in
    let first : entry no_task g n ≡ entry no_task h 0 =
      ground (arith, s.kept n, entry-exchanged no_task h 0 n (omega arith) (omega arith) n) in
    let kept = entry-take no_task n g in
    let whole : Perm (entry no_task g n ∷ take n g) g =
      rw (take-last no_task n g long) at
        (Perm.symm (perm_append_singleton (entry no_task g n) (take n g))) in
    rw
      (
        one,
        index-done no_task g n (omega arith),
        take-set n g (record (entry no_task g n) { execute = none }),
        first,
      )
      (record {
        ordered = λ c p q. ground (arith, s.ordered c, kept c, kept (parent c), length-take n g);
        same =
            Perm.trans (rw first at whole)
              (Perm.trans s.same (exchanged-perm no_task h 0 n (omega arith) (omega arith)));
        size = omega (arith, length-take n g);
        first = refl;
        least = λ i e. root_least (suc n) h i o (omega arith);
      })

-- heap.Pop on a heap with a task in it, by `Less` on the times: it returns, without an index out
-- of range; it gives the first entry, which no other entry precedes in time; what remains is a heap
-- again, one entry shorter, and holds with that entry the same tasks as before.
pub pop_lem : (h : List TimeFunc) → IsHeap h → 0 < length h → Returns (pop h) (Popped h)
unfolding pop
pop_lem h o e =
    let n = length h - 1 in
    let seen = entry-exchanged no_task h 0 n (omega arith) (omega arith) in
    rw (swap-done h 0 n (omega arith) (omega arith)) (
      Returns-bind (down (exchanged no_task h 0 n) 0 n) pop_back
        (Sifted n (exchanged no_task h 0 n)) (Popped h)
        (down_sifts n (exchanged no_task h 0 n) 0 (omega (arith, length-exchanged no_task h 0 n))
          (record {
            edges = λ c p q r. ground (arith, o c, seen c, seen (parent c));
            across = λ c p q r t. absurd (omega arith);
          }))
        (λ g s. cut n h g (omega arith) (λ c p q. o c p (omega arith)) s))
