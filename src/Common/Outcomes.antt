-- ===== src/Common/Outcomes.antt =====
-- What a Go call comes to: a value, a run-time panic, or a loop whose fuel ran out (which is no Go
-- behaviour).
use mathlib.Core.Path.{◌≡◌, refl}
use mathlib.Core.Bool.{Bool, true, false}
use rudp_go.Common.Checks.{if◌then◌else◌}

pub data Outcome {ℓ} (A : Type ℓ) : Type ℓ where
  done : A → Outcome A
  panic : Outcome A
  out_of_fuel : Outcome A

infixl 5 ◌>>=◌
abbrev pub ◌>>=◌ {ℓ κ} : {A : Type ℓ} {B : Type κ} → Outcome A → (A → Outcome B) → Outcome B
done a >>= f = f a
panic >>= f = panic
out_of_fuel >>= f = out_of_fuel

-- The call returns, and its value meets `P`.
abbrev pub Returns {ℓ} : {A : Type ℓ} → Outcome A → (A → Type 0) → Type 0
Returns (done a) P = P a
Returns panic P = ⊥
Returns out_of_fuel P = ⊥

-- A call that returns, followed by another that returns.
pub Returns-bind {ℓ κ} :
    {A : Type ℓ} {B : Type κ} (m : Outcome A) (f : A → Outcome B) (P : A → Type 0) (Q : B → Type 0)
    → Returns m P
    → ((a : A) → P a → Returns (f a) Q)
    → Returns (m >>= f) Q
Returns-bind (done a) f P Q h k = k a h
Returns-bind panic f P Q h k = elim h [ ]
Returns-bind out_of_fuel f P Q h k = elim h [ ]

pub Returns-mono {ℓ} :
    {A : Type ℓ} (m : Outcome A) (P Q : A → Type 0)
    → Returns m P
    → ((a : A) → P a → Q a)
    → Returns m Q
Returns-mono (done a) P Q h k = k a h
Returns-mono panic P Q h k = elim h [ ]
Returns-mono out_of_fuel P Q h k = elim h [ ]

pub Returns-done {ℓ} :
    {A : Type ℓ} (m : Outcome A) (P : A → Type 0) → Returns m P → (a : A) × (m ≡ done a) × P a
Returns-done (done a) P h = (a, refl, h)
Returns-done panic P h = elim h [ ]
Returns-done out_of_fuel P h = elim h [ ]

-- The value, if the call returns one, meets `P`.
abbrev pub IfDone {ℓ} : {A : Type ℓ} → Outcome A → (A → Type 0) → Type 0
IfDone (done a) P = P a
IfDone panic P = Unit {0}
IfDone out_of_fuel P = Unit {0}

pub IfDone-bind {ℓ κ} :
    {A : Type ℓ} {B : Type κ} (m : Outcome A) (f : A → Outcome B) (P : A → Type 0) (Q : B → Type 0)
    → IfDone m P
    → ((a : A) → P a → IfDone (f a) Q)
    → IfDone (m >>= f) Q
IfDone-bind (done a) f P Q h k = k a h
IfDone-bind panic f P Q h k = tt
IfDone-bind out_of_fuel f P Q h k = tt

-- Where the first call's value does not matter.
pub IfDone-then {ℓ κ} :
    {A : Type ℓ} {B : Type κ} (m : Outcome A) (f : A → Outcome B) (Q : B → Type 0)
    → ((a : A) → IfDone (f a) Q)
    → IfDone (m >>= f) Q
IfDone-then (done a) f Q k = k a
IfDone-then panic f Q k = tt
IfDone-then out_of_fuel f Q k = tt

pub Returns-IfDone {ℓ} :
    {A : Type ℓ} (m : Outcome A) (P Q : A → Type 0)
    → Returns m P
    → IfDone m Q
    → Returns m (λ a. P a × Q a)
Returns-IfDone (done a) P Q h k = (h, k)
Returns-IfDone panic P Q h k = elim h [ ]
Returns-IfDone out_of_fuel P Q h k = elim h [ ]

pub IfDone-Returns {ℓ} :
    {A : Type ℓ} (m : Outcome A) (P Q : A → Type 0)
    → Returns m P
    → ((a : A) → P a → Q a)
    → IfDone m Q
IfDone-Returns (done a) P Q h k = k a h
IfDone-Returns panic P Q h k = tt
IfDone-Returns out_of_fuel P Q h k = tt

pub IfDone-both {ℓ} :
    {A : Type ℓ} (m : Outcome A) (P Q R : A → Type 0)
    → IfDone m P
    → IfDone m Q
    → ((a : A) → P a → Q a → R a)
    → IfDone m R
IfDone-both (done a) P Q R h h' k = k a h h'
IfDone-both panic P Q R h h' k = tt
IfDone-both out_of_fuel P Q R h h' k = tt

pub IfDone-mono {ℓ} :
    {A : Type ℓ} (m : Outcome A) (P Q : A → Type 0)
    → IfDone m P
    → ((a : A) → P a → Q a)
    → IfDone m Q
IfDone-mono (done a) P Q h k = k a h
IfDone-mono panic P Q h k = tt
IfDone-mono out_of_fuel P Q h k = tt

-- Both branches of a test.
pub Returns-if {ℓ} :
    {A : Type ℓ} (b : Bool) (m n : Outcome A) (P : A → Type 0)
    → Returns m P
    → Returns n P
    → Returns (if b then m else n) P
Returns-if true m n P h k = h
Returns-if false m n P h k = k

pub bind_assoc {ℓ κ μ} :
    {A : Type ℓ} {B : Type κ} {C : Type μ} (m : Outcome A) (f : A → Outcome B) (g : B → Outcome C)
    → (m >>= λ a. f a >>= g) ≡ (m >>= f >>= g)
bind_assoc (done a) f g = refl
bind_assoc panic f g = refl
bind_assoc out_of_fuel f g = refl

-- The parts of a chain that returns.
pub bind_done {ℓ κ} :
    {A : Type ℓ} {B : Type κ} (m : Outcome A) (f : A → Outcome B) (b : B)
    → (m >>= f) ≡ done b
    → (a : A) × (m ≡ done a) × (f a ≡ done b)
bind_done (done a) f b e = (a, refl, e)
bind_done panic f b e = cc
bind_done out_of_fuel f b e = cc

-- Both branches of a test, whose result they may use.
pub IfDone-if {ℓ} :
    {A : Type ℓ} (b : Bool) (m n : Outcome A) (P : A → Type 0)
    → (b ≡ true → IfDone m P)
    → (b ≡ false → IfDone n P)
    → IfDone (if b then m else n) P
IfDone-if true m n P h k = h refl
IfDone-if false m n P h k = k refl
