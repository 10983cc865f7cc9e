-- ===== src/Common/Counts.antt =====
-- How many entries of a list pass a test, and what a change of order keeps.
use Prim.Native.Nat.{ℕ, ◌+◌}
use mathlib.Core.Path.{◌≡◌, refl, ap, ◌∙◌, subst}
use mathlib.Core.HLevel.{×_prop}
use mathlib.Core.Logic.{∥∥₁_elim}
use mathlib.Core.Bool.{Bool}
use mathlib.Core.List.{List, [], ◌∷◌, ◌++◌, Perm, Permᴰ}
use native.Mathlib.Nat.{ℕ_set}
use native.Mathlib.Omega.{arith}
use rudp_go.Common.Checks.{if◌then◌else◌}
use rudp_go.Common.Lists.{All}

module _ {ℓ} {A : Type ℓ} (p : A → Bool) where
  abbrev tally : A → ℕ
  tally x = if p x then 1 else 0

  abbrev pub count : List A → ℕ
  count [] = 0
  count (x ∷ xs) = tally x + count xs

  pub count-append : (xs ys : List A) → count (xs ++ ys) ≡ count xs + count ys
  count-append [] ys = omega arith
  count-append (x ∷ xs) ys = omega (arith, count-append xs ys)

  Permᴰ-count : {xs ys : List A} → Permᴰ xs ys → count xs ≡ count ys
  Permᴰ-count Permᴰ.nil = refl
  Permᴰ-count (Permᴰ.cons e h) = omega (arith, ap tally e, Permᴰ-count h)
  Permᴰ-count (Permᴰ.swap e e') = omega (arith, ap tally e, ap tally e')
  Permᴰ-count (Permᴰ.trans h k) = Permᴰ-count h ∙ Permᴰ-count k

  pub count-perm : {xs ys : List A} → Perm xs ys → count xs ≡ count ys
  count-perm h = ∥∥₁_elim h (ℕ_set _ _) Permᴰ-count

module _ {ℓ κ} {A : Type ℓ} (P : A → Type κ) (P_prop : (a : A) → IsProp (P a)) where
  All_prop : (xs : List A) → IsProp (All P xs)
  All_prop [] = λ u v. refl
  All_prop (x ∷ xs) = ×_prop (P_prop x) (All_prop xs)

  Permᴰ-All : {xs ys : List A} → Permᴰ xs ys → All P xs → All P ys
  Permᴰ-All Permᴰ.nil a = a
  Permᴰ-All (Permᴰ.cons e h) a = (subst P e a.0, Permᴰ-All h a.1)
  Permᴰ-All (Permᴰ.swap e e') a = (subst P e' a.1.0, (subst P e a.0, a.1.1))
  Permᴰ-All (Permᴰ.trans h k) a = Permᴰ-All k (Permᴰ-All h a)

  pub Perm-All : {xs ys : List A} → Perm xs ys → All P xs → All P ys
  Perm-All {xs} {ys} h a = ∥∥₁_elim h (All_prop ys) (λ d. Permᴰ-All d a)
