-- ===== src/Listener/Slots.antt =====
-- listener.go, the map from addresses to sessions.
use rudp_go.Common.{
  ℕ, ◌≡◌, ◌≢◌, refl, sym, ◌∙◌, List, [], ◌∷◌, Bool-cases, inl, inr, ◌==◌, eq→==, ==→eq, ne→not_==,
  none, some, All,
}
use rudp_go.Listener.{Slot, lookup, remove}

pub All-remove {κ} :
    (P : Slot → Type κ) (address : ℕ) (slots : List Slot)
    → All P slots
    → All P (remove address slots)
unfolding remove
All-remove P address [] h = h
All-remove P address (s ∷ slots) h = elim (Bool-cases (s.address == address)) [
  | inl e ↦ rw e (All-remove P address slots h.1)
  | inr e ↦ rw e (h.0, All-remove P address slots h.1)
]

pub lookup-cons-same :
    (address id : ℕ) (slots : List Slot)
    → lookup address (record { address = address; id = id } ∷ slots) ≡ some id
unfolding lookup
lookup-cons-same address id slots = rw (eq→== address address refl) refl

pub lookup-cons-other :
    (address other id : ℕ) (slots : List Slot)
    → other ≢ address
    → lookup address (record { address = other; id = id } ∷ slots) ≡ lookup address slots
unfolding lookup
lookup-cons-other address other id slots h = rw (ne→not_== other address h) refl

pub lookup-remove-same :
    (address : ℕ) (slots : List Slot) → lookup address (remove address slots) ≡ none
unfolding lookup remove
lookup-remove-same address [] = refl
lookup-remove-same address (s ∷ slots) = elim (Bool-cases (s.address == address)) [
  | inl e ↦ rw e (lookup-remove-same address slots)
  | inr e ↦ rw (e, e) (lookup-remove-same address slots)
]

pub lookup-remove-other :
    (address other : ℕ) (slots : List Slot)
    → other ≢ address
    → lookup address (remove other slots) ≡ lookup address slots
unfolding lookup remove
lookup-remove-other address other [] h = refl
lookup-remove-other address other (s ∷ slots) h = elim (Bool-cases (s.address == other)) [
  | inl e ↦
      let differs : s.address ≢ address = λ e'. h (sym (==→eq s.address other e) ∙ e') in
      rw (e, ne→not_== s.address address differs) (lookup-remove-other address other slots h)
  | inr e ↦ elim (Bool-cases (s.address == address)) [
    | inl e' ↦ rw (e, e') refl
    | inr e' ↦ rw (e, e') (lookup-remove-other address other slots h)
  ]
]
