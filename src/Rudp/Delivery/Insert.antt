-- ===== src/Rudp/Delivery/Insert.antt =====
-- The place that parseData finds for a segment.
use mathlib.Core.Path.{subst}
use mathlib.Core.List.{reverse, reverse-cons, reverse-reverse}
use rudp_go.Common.{
  ℕ, zero, suc, ◌+◌, ◌≤◌, ◌<◌, ◌≡◌, refl, sym, ap, ◌∙◌, List, [], ◌∷◌, ◌++◌, length, length-append,
  Bool, Bool-cases, inl, inr, true, false, ltb, ◌==◌, if◌then◌else◌, arith, ltb→lt, ==→eq,
  All-append, All-mono, eq→==, lt→not_==, le→leb, done, lt→ltb, le→not_ltb, take-length,
  drop-length,
}
use rudp_go.Wire.{Segment}
use native.Mathlib.Nat.{le_refl}
use rudp_go.Rudp.Numbers.{Ascends, Below}
use rudp_go.Rudp.Delivery.{find_place, insert_at, store}
use rudp_go.Rudp.{Rudp, mtu_limit}

-- Insertion from the front, into a list in rising order.
abbrev pub insert_sorted : Segment → List Segment → List Segment
insert_sorted seg [] = seg ∷ []
insert_sorted seg (s ∷ buf) = if ltb s.sn seg.sn then s ∷ insert_sorted seg buf else seg ∷ s ∷ buf

-- A segment of this number is there.
abbrev pub has_sn : ℕ → List Segment → Bool
has_sn sn [] = false
has_sn sn (s ∷ buf) = if s.sn == sn then true else has_sn sn buf

Ascends-init :
    (lo : ℕ) (xs : List Segment) (s : Segment)
    → Ascends lo (xs ++ s ∷ [])
    → Ascends lo xs × Below s.sn xs × (lo ≤ s.sn)
Ascends-init lo [] s a = (tt, tt, a.0)
Ascends-init lo (x ∷ xs) s a =
    let (rest, below, le) = Ascends-init (suc x.sn) xs s a.1 in
    ((a.0, rest), (le, below), omega (arith, a.0, le))

module _ (seg : Segment) where
  insert_sorted-last : (xs : List Segment) → Below seg.sn xs → insert_sorted seg xs ≡ xs ++ seg ∷ []
  insert_sorted-last [] h = refl
  insert_sorted-last (x ∷ xs) h = rw (lt→ltb _ _ h.0) (ap (◌∷◌ x) (insert_sorted-last xs h.1))

  insert_sorted-append :
      (xs : List Segment) (s : Segment)
      → seg.sn < s.sn
      → insert_sorted seg (xs ++ s ∷ []) ≡ insert_sorted seg xs ++ s ∷ []
  insert_sorted-append [] s h = rw (le→not_ltb s.sn seg.sn (omega arith))
  insert_sorted-append (x ∷ xs) s h = ground (arith, insert_sorted-append xs s h)

  insert_at-append :
      (i : ℕ) (xs ys : List Segment)
      → i ≤ length xs
      → insert_at i seg (xs ++ ys) ≡ insert_at i seg xs ++ ys
  unfolding insert_at
  insert_at-append zero xs ys h = refl
  insert_at-append (suc i) [] ys h = absurd (omega arith)
  insert_at-append (suc i) (x ∷ xs) ys h = ap (◌∷◌ x) (insert_at-append i xs ys (omega arith))

  insert_at-length :
      (i : ℕ) (xs : List Segment) → i ≡ length xs → insert_at i seg xs ≡ xs ++ seg ∷ []
  unfolding insert_at
  insert_at-length i xs e =
      rw (e, take-length (length xs) xs (le_refl _), drop-length (length xs) xs (le_refl _))

has_sn-Below : (sn : ℕ) (xs : List Segment) → Below sn xs → has_sn sn xs ≡ false
has_sn-Below sn [] h = refl
has_sn-Below sn (x ∷ xs) h = ground (arith, has_sn-Below sn xs h.1)

has_sn-append :
    (sn : ℕ) (xs : List Segment) (s : Segment)
    → has_sn sn (xs ++ s ∷ []) ≡ (if s.sn == sn then true else has_sn sn xs)
has_sn-append sn [] s = refl
has_sn-append sn (x ∷ xs) s = ground (arith, has_sn-append sn xs s)

length-reverse : (xs : List Segment) → length (reverse xs) ≡ length xs
length-reverse [] = refl
length-reverse (x ∷ xs) = omega (
  arith,
  ap (length {A = Segment}) (reverse-cons x xs),
  length-append (reverse xs) (x ∷ []),
  length-reverse xs,
)

-- What the search must find: whether the number is there, and else the place in rising order.
abbrev Finds : Segment → List Segment → Bool × ℕ → Type 0
Finds seg buf (repeat, i) =
    (repeat ≡ has_sn seg.sn buf)
    × (repeat ≡ false → insert_at i seg buf ≡ insert_sorted seg buf)
    × (i ≤ length buf)

module _ (seg s : Segment) (xs : List Segment) where
  place_of_same : s.sn ≡ seg.sn → Finds seg (xs ++ s ∷ []) (true, 0)
  place_of_same e = (
    sym (has_sn-append seg.sn xs s ∙ ap (λ b. if b then true else has_sn seg.sn xs) (eq→== _ _ e)),
    (λ h. cc),
    omega arith,
  )

  place_above :
      (n : ℕ)
      → s.sn < seg.sn
      → Below s.sn xs
      → n ≡ length (xs ++ s ∷ [])
      → Finds seg (xs ++ s ∷ []) (false, n)
  place_above n lt below e = (
    sym (has_sn-Below seg.sn (xs ++ s ∷ []) all),
    (λ h.
        insert_at-length seg n (xs ++ s ∷ []) e ∙ sym (insert_sorted-last seg (xs ++ s ∷ []) all)),
    omega arith,
  )
    where
      all : Below seg.sn (xs ++ s ∷ [])
      all =
          All-append (λ t. t.sn < seg.sn) xs (s ∷ [])
            (All-mono (λ t. t.sn < s.sn) (λ t. t.sn < seg.sn) (λ t h. omega arith) xs below)
            (lt, tt)

  place_before :
      (found : Bool × ℕ) → seg.sn < s.sn → Finds seg xs found → Finds seg (xs ++ s ∷ []) found
  place_before found lt f = (
    f.0
        ∙ sym (
            has_sn-append seg.sn xs s
            ∙ ap (λ b. if b then true else has_sn seg.sn xs) (lt→not_== _ _ lt)),
    (λ h.
        insert_at-append seg found.1 xs (s ∷ []) f.2
        ∙ ap (λ ys. ys ++ s ∷ []) (f.1 h)
        ∙ sym (insert_sorted-append seg xs s lt)),
    omega (arith, f.2, length-append xs (s ∷ [])),
  )

find_place_lem :
    (lo : ℕ) (seg : Segment) (rev : List Segment)
    → Ascends lo (reverse rev)
    → Finds seg (reverse rev) (find_place seg.sn rev)
unfolding find_place
find_place_lem lo seg [] a = (refl, (λ e. insert_at-length seg 0 [] refl), omega arith)
find_place_lem lo seg (s ∷ before) a =
    let ordered = subst (Ascends lo) (reverse-cons s before) a in
    let (first, below, le) = Ascends-init lo (reverse before) s ordered in
    subst (λ buf. Finds seg buf (find_place seg.sn (s ∷ before))) (sym (reverse-cons s before))
      (elim (Bool-cases (s.sn == seg.sn)) [
        | inl same ↦ rw same (place_of_same seg s (reverse before) (==→eq _ _ same))
        | inr other ↦ elim (Bool-cases (ltb s.sn seg.sn)) [
          | inl above ↦
              rw (other, above)
                (place_above seg s (reverse before) (length before + 1) (ltb→lt _ _ above) below
                  (omega (arith, length-append (reverse before) (s ∷ []), length-reverse before)))
          | inr before_it ↦
              rw (other, before_it)
                (place_before seg s (reverse before) (find_place seg.sn before) (ground arith)
                  (find_place_lem lo seg before first))
        ]
      ])

-- parseData's store: into a receive buffer in rising order a segment with a new number goes to its
-- place in that order, and a segment whose number is there changes nothing and is reported.
pub store_lem :
    (lo : ℕ) (seg : Segment) (r : Rudp)
    → Ascends lo r.rcv_buf
    → length seg.payload ≤ mtu_limit
    → store seg r
      ≡ done (
        has_sn seg.sn r.rcv_buf,
        if has_sn seg.sn r.rcv_buf then r else record r { rcv_buf = insert_sorted seg r.rcv_buf },
      )
unfolding store
store_lem lo seg r a small =
    let found : Finds seg r.rcv_buf (find_place seg.sn (reverse r.rcv_buf)) =
      subst (λ buf. Finds seg buf (find_place seg.sn (reverse r.rcv_buf)))
        (reverse-reverse r.rcv_buf)
        (find_place_lem lo seg (reverse r.rcv_buf)
          (subst (Ascends lo) (sym (reverse-reverse r.rcv_buf)) a)) in
    elim (Bool-cases (has_sn seg.sn r.rcv_buf)) [
      | inl there ↦ rw (found.0 ∙ there, there) refl
      | inr new ↦ rw (found.0 ∙ new, new, le→leb _ _ small, found.1 (found.0 ∙ new)) refl
    ]
