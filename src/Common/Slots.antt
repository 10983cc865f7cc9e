-- ===== src/Common/Slots.antt =====
-- Go slices read and written at an index, and exchanges of two entries.
use Prim.Native.Nat.{ℕ, zero, suc, ◌<◌}
use mathlib.Core.Path.{◌≡◌, refl, ap, ◌∙◌, subst}
use mathlib.Core.List.{List, [], ◌∷◌, ◌++◌, Perm}
use mathlib.Core.List.Perm
use mathlib.Core.Option.{Option, none, some}
use native.Mathlib.Omega.{arith}
use rudp_go.Common.Checks.{◌==◌, if◌then◌else◌}
use rudp_go.Common.Lists.{length, take, drop, All}
use rudp_go.Common.Outcomes.{Outcome, done, panic}

module _ {ℓ} {A : Type ℓ} where
  abbrev pub get_elem? : List A → ℕ → Option A
  get_elem? [] i = none
  get_elem? (x ∷ xs) zero = some x
  get_elem? (x ∷ xs) (suc i) = get_elem? xs i

  abbrev pub set : List A → ℕ → A → List A
  set [] i v = []
  set (x ∷ xs) zero v = v ∷ xs
  set (x ∷ xs) (suc i) v = x ∷ set xs i v

  -- The entry of an index, and of no entry a given value.
  abbrev pub entry : A → List A → ℕ → A
  entry d [] i = d
  entry d (x ∷ xs) zero = x
  entry d (x ∷ xs) (suc i) = entry d xs i

  abbrev pub or_panic : Option A → Outcome A
  or_panic none = panic
  or_panic (some a) = done a

  -- `xs[i]`
  abbrev pub index : List A → ℕ → Outcome A
  index xs i = or_panic (get_elem? xs i)

  pub length-set : (xs : List A) (i : ℕ) (v : A) → length (set xs i v) ≡ length xs
  length-set [] i v = refl
  length-set (x ∷ xs) zero v = refl
  length-set (x ∷ xs) (suc i) v = ap suc (length-set xs i v)

  pub index-done : (d : A) (xs : List A) (i : ℕ) → i < length xs → index xs i ≡ done (entry d xs i)
  index-done d [] i h = absurd (omega arith)
  index-done d (x ∷ xs) zero h = refl
  index-done d (x ∷ xs) (suc i) h = index-done d xs i (omega arith)

  pub entry-set :
      (d : A) (xs : List A) (i j : ℕ) (v : A)
      → i < length xs
      → entry d (set xs i v) j ≡ (if i == j then v else entry d xs j)
  entry-set d [] i j v h = absurd (omega arith)
  entry-set d (x ∷ xs) zero zero v h = refl
  entry-set d (x ∷ xs) zero (suc j) v h = ground arith
  entry-set d (x ∷ xs) (suc i) zero v h = ground arith
  entry-set d (x ∷ xs) (suc i) (suc j) v h = ground (arith, entry-set d xs i j v)

  pub entry-append :
      (d : A) (xs ys : List A) (i : ℕ) → i < length xs → entry d (xs ++ ys) i ≡ entry d xs i
  entry-append d [] ys i h = absurd (omega arith)
  entry-append d (x ∷ xs) ys zero h = refl
  entry-append d (x ∷ xs) ys (suc i) h = entry-append d xs ys i (omega arith)

  pub entry-last : (d : A) (xs : List A) (x : A) → entry d (xs ++ x ∷ []) (length xs) ≡ x
  entry-last d [] x = refl
  entry-last d (y ∷ xs) x = entry-last d xs x

  pub entry-take :
      (d : A) (n : ℕ) (xs : List A) (i : ℕ) → i < n → entry d (take n xs) i ≡ entry d xs i
  entry-take d zero xs i h = absurd (omega arith)
  entry-take d (suc n) [] i h = refl
  entry-take d (suc n) (x ∷ xs) zero h = refl
  entry-take d (suc n) (x ∷ xs) (suc i) h = entry-take d n xs i (omega arith)

  -- What stands past an index is not touched by a write there.
  pub take-set : (n : ℕ) (xs : List A) (v : A) → take n (set xs n v) ≡ take n xs
  take-set zero xs v = refl
  take-set (suc n) [] v = refl
  take-set (suc n) (x ∷ xs) v = ap (◌∷◌ x) (take-set n xs v)

  pub take-last :
      (d : A) (n : ℕ) (xs : List A) → length xs ≡ suc n → take n xs ++ entry d xs n ∷ [] ≡ xs
  take-last d n [] h = absurd (omega arith)
  take-last d zero (x ∷ []) h = refl
  take-last d zero (x ∷ y ∷ xs) h = absurd (omega arith)
  take-last d (suc n) (x ∷ xs) h = ap (◌∷◌ x) (take-last d n xs (omega arith))

  set-perm :
      (d : A) (xs : List A) (i : ℕ) (v : A)
      → i < length xs
      → Perm (entry d xs i ∷ set xs i v) (v ∷ xs)
  set-perm d [] i v h = absurd (omega arith)
  set-perm d (x ∷ xs) zero v h = Perm.swap v x xs
  set-perm d (x ∷ xs) (suc i) v h =
      Perm.trans (Perm.swap x (entry d xs i) (set xs i v))
        (Perm.trans (Perm.cons x (set-perm d xs i v (omega arith))) (Perm.swap v x xs))

  -- `xs[i], xs[j] = xs[j], xs[i]` within the slice
  abbrev pub exchanged : A → List A → ℕ → ℕ → List A
  exchanged d xs i j = set (set xs i (entry d xs j)) j (entry d xs i)

  pub length-exchanged : (d : A) (xs : List A) (i j : ℕ) → length (exchanged d xs i j) ≡ length xs
  length-exchanged d xs i j =
      length-set (set xs i (entry d xs j)) j (entry d xs i) ∙ length-set xs i (entry d xs j)

  module _ (d : A) (xs : List A) (i j : ℕ) (hi : i < length xs) (hj : j < length xs) where
    pub entry-exchanged :
        (k : ℕ)
        → entry d (exchanged d xs i j) k
          ≡ (if j == k then entry d xs i else if i == k then entry d xs j else entry d xs k)
    entry-exchanged k = rw (
      entry-set d (set xs i (entry d xs j)) j k (entry d xs i) (rw length-set hj),
      entry-set d xs i k (entry d xs j) hi,
    )

    pub exchanged-perm : Perm (exchanged d xs i j) xs
    exchanged-perm =
        let once = set xs i (entry d xs j) in
        let same : entry d once j ≡ entry d xs j =
          ground (arith, entry-set d xs i j (entry d xs j) hi) in
        let inside : j < length once = omega (arith, length-set xs i (entry d xs j)) in
        let twice =
          subst (λ v. Perm (v ∷ set once j (entry d xs i)) (entry d xs i ∷ once)) same
            (set-perm d once j (entry d xs i) inside) in
        Perm.cons_inv (Perm.trans twice (set-perm d xs i (entry d xs j) hi))

module _ {ℓ κ} {A : Type ℓ} (P : A → Type κ) (d : A) where
  pub All-entry : (xs : List A) (i : ℕ) → i < length xs → All P xs → P (entry d xs i)
  All-entry [] i h a = absurd (omega arith)
  All-entry (x ∷ xs) zero h a = a.0
  All-entry (x ∷ xs) (suc i) h a = All-entry xs i (omega arith) a.1

  pub entries-All : (xs : List A) → ((i : ℕ) → i < length xs → P (entry d xs i)) → All P xs
  entries-All [] k = tt
  entries-All (x ∷ xs) k = (k 0 (omega arith), entries-All xs (λ i h. k (suc i) (omega arith)))

-- The entry of an index is the first of what stands from there on.
pub index-drop {ℓ} :
    {A : Type ℓ} (xs : List A) (i : ℕ)
    → i < length xs
    → (x : A) × (index xs i ≡ done x) × (drop i xs ≡ x ∷ drop (suc i) xs)
index-drop [] i h = absurd (omega arith)
index-drop (x ∷ xs) zero h = (x, refl, refl)
index-drop (x ∷ xs) (suc i) h = index-drop xs i (omega arith)
