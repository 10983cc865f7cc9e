-- ===== src/TimedSched/Heap.antt =====
-- timesched.go, `timeFunc` and `timeFuncHeap`, with what container/heap does with it. A function
-- is known by a number, and a `nil` one is `none`. A time is a number of nanoseconds.
pub mod Order
pub mod Up
pub mod Down
pub mod Queue
use rudp_go.Common.{
  ℕ, zero, suc, ◌+◌, ◌-◌, ◌*◌, ◌/◌, Bool, List, [], ◌∷◌, ◌++◌, Option, none, Outcome, done, panic,
  out_of_fuel, ◌>>=◌, ltb, ◌==◌, ◌||◌, not, if◌then◌else◌, length, take, set, index,
}

pub record TimeFunc : Type 0 where
  pub execute : Option ℕ
  pub ts : ℕ

abbrev pub no_task : TimeFunc
no_task = record { execute = none; ts = 0 }

unfoldable pub less : List TimeFunc → ℕ → ℕ → Outcome Bool
less h i j = do a ← index h i; b ← index h j; done (ltb a.ts b.ts)

unfoldable pub swap : List TimeFunc → ℕ → ℕ → Outcome (List TimeFunc)
swap h i j = do a ← index h j; b ← index h i; done (set (set h i a) j b)

-- `Push` of the heap's interface
abbrev pub push_back : List TimeFunc → TimeFunc → List TimeFunc
push_back h x = h ++ x ∷ []

-- `Pop` of the heap's interface
unfoldable pub pop_back : List TimeFunc → Outcome (TimeFunc × List TimeFunc)
pop_back h =
    let n = length h in
    index h (n - 1) >>= λ x. done (x, take (n - 1) (set h (n - 1) (record x { execute = none })))

abbrev pub parent : ℕ → ℕ
parent j = (j - 1) / 2

-- `up` of container/heap: a round for each level at most
pub up_loop : ℕ → List TimeFunc → ℕ → Outcome (List TimeFunc)
unfolding less swap
up_loop zero h j = out_of_fuel
up_loop (suc fuel) h j =
    let rise = swap h (parent j) j >>= λ g. up_loop fuel g (parent j) in
    let compare = less h j (parent j) >>= λ below. if below then rise else done h in
    if parent j == j then done h else compare

unfoldable pub up : List TimeFunc → ℕ → Outcome (List TimeFunc)
unfolding up_loop
up h j = up_loop (j + 1) h j

-- the lower child of `i` among the first `n` entries, one of which is the left child
pub lower_child : List TimeFunc → ℕ → ℕ → Outcome ℕ
unfolding less
lower_child h i n =
    let left = 2 * i + 1 in
    let right = left + 1 in
    let either = less h right left >>= λ below. done (if below then right else left) in
    if ltb right n then either else done left

-- `down` of container/heap, whose result no caller here reads
pub down_loop : ℕ → List TimeFunc → ℕ → ℕ → Outcome (List TimeFunc)
unfolding lower_child less swap
down_loop zero h i n = out_of_fuel
down_loop (suc fuel) h i n =
    let sift : Outcome (List TimeFunc) = do
      j ← lower_child h i n
      below ← less h j i
      let sink = swap h i j >>= λ g. down_loop fuel g j n
      if below then sink else done h
    in if ltb (2 * i + 1) n then sift else done h

unfoldable pub down : List TimeFunc → ℕ → ℕ → Outcome (List TimeFunc)
unfolding down_loop
down h i n = down_loop (n + 1) h i n

-- heap.Push
unfoldable pub push : List TimeFunc → TimeFunc → Outcome (List TimeFunc)
unfolding up
push h x = up (push_back h x) (length (push_back h x) - 1)

-- heap.Pop
unfoldable pub pop : List TimeFunc → Outcome (TimeFunc × List TimeFunc)
unfolding down swap pop_back
pop h = let n = length h - 1 in swap h 0 n >>= λ g. down g 0 n >>= pop_back
