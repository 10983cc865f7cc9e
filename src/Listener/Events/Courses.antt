-- ===== src/Listener/Events/Courses.antt =====
-- What a listener and its sessions come to, and how each kind of event keeps it.
use rudp_go.Common.{
  ℕ, zero, suc, ◌+◌, ◌-◌, ◌≡◌, ◌≢◌, refl, sym, ap, ◌∙◌, List, [], ◌∷◌, ◌++◌, Bool, true, false,
  Option, none, some, length, Outcome, done, ◌>>=◌, Returns, Returns-bind, arith, Bool-cases, inl,
  inr, ltb, if◌then◌else◌,
}
use rudp_go.Listener.{Listener, lookup, remove, close_begun, close_session}
use rudp_go.Listener.Steady.{range, Steady, Steady-mono}
use rudp_go.Listener.Closing.{Begun, close_begun-Begun, Begun-Called, close_session-Steady}
use rudp_go.Listener.Events.{
  Course, is_in, take_out, add_some, begin_close, end_close, move_on, stay_on, if_made,
}
use rudp_go.Listener.Events.Onward.{passed, Onward}

abbrev pub IsClosing : Course → ℕ → Type 0
IsClosing c a = is_in a c.closing ≡ true

abbrev pub IsStruck : Course → ℕ → Type 0
IsStruck c id = is_in id c.struck ≡ true

-- What a listener has come to: it is in order, but for the addresses and the sessions named, and the
-- sessions accepted so far are those made first, in their order.
pub record Served (c : Course) : Type 0 where
  pub steady : Steady (IsClosing c) (IsStruck c) c.listener
  pub accepted_ids : c.given ≡ range 0 (length c.listener.made - length c.listener.accepts)

range-range : (start m n : ℕ) → range start m ++ range (start + m) n ≡ range start (m + n)
range-range start zero n =
    let e : start + 0 ≡ start = omega arith in
    let e' : n ≡ 0 + n = omega arith in ap (λ k. range k n) e ∙ ap (range start) e'
range-range start (suc m) n =
    let e : start + suc m ≡ suc start + m = omega arith in
    let e' : suc m + n ≡ suc (m + n) = omega arith in
    ap (λ k. start ∷ (range (suc start) m ++ range k n)) e
    ∙ ap (◌∷◌ start) (range-range (suc start) m n)
    ∙ ap (range start) (sym e')

range-split : (m n : ℕ) → range 0 m ++ range m n ≡ range 0 (m + n)
range-split m n =
    let e : m ≡ 0 + m = omega arith in ap (λ k. range 0 m ++ range k n) e ∙ range-range 0 m n

abbrev OnwardOf : Course → List ℕ × Listener → Type 0
OnwardOf c = Onward (IsClosing c) (IsStruck c) c.listener

pub move_on-Served :
    (c : Course) (x : List ℕ × Listener) → Served c → OnwardOf c x → Served (move_on c x)
move_on-Served c x v o = record {
  steady = o.steady;
  accepted_ids =
      ap (λ g. c.given ++ g) o.given
      ∙ ap (λ g. g ++ range (passed c.listener) (length x.0)) v.accepted_ids
      ∙ range-split (passed c.listener) (length x.0)
      ∙ ap (range 0) (sym o.on);
}

pub stay_on-Served :
    (c : Course) (l : Listener) → Served c → OnwardOf c ([], l) → Served (stay_on c l)
stay_on-Served c l v o =
    let same : passed c.listener ≡ passed l = omega (arith, o.on) in
    record { steady = o.steady; accepted_ids = v.accepted_ids ∙ ap (range 0) same }

-- A handler that gives back the listener alone.
pub stayed :
    (c : Course) (m : Outcome Listener) (P : Listener → Type 0)
    → Served c
    → Returns m P
    → ((l : Listener) → P l → OnwardOf c ([], l))
    → Returns (m >>= λ l. done (stay_on c l)) Served
stayed c m P v h k = Returns-bind m _ P Served h λ l p. stay_on-Served c l v (k l p)

is_in-add_some :
    (a : ℕ) (o : Option ℕ) (xs : List ℕ) → is_in a xs ≡ true → is_in a (add_some o xs) ≡ true
is_in-add_some a none xs h = h
is_in-add_some a (some b) xs h = ground arith

is_in-added : (a : ℕ) (o : Option ℕ) (xs : List ℕ) → o ≡ some a → is_in a (add_some o xs) ≡ true
is_in-added a none xs e = cc
is_in-added a (some b) xs e = ground arith

is_in-take_out :
    (a b : ℕ) (xs : List ℕ) → a ≢ b → is_in b xs ≡ true → is_in b (take_out a xs) ≡ true
is_in-take_out a b [] differs h = h
is_in-take_out a b (x ∷ xs) differs h = ground (arith, is_in-take_out a b xs differs)

pub begin_close-Served :
    (clock : ℕ → ℕ) (id : ℕ) (c : Course)
    → Served c
    → Returns
        (if_made id (close_begun clock id c.listener) (none, c.listener) c.listener >>= λ x.
          done (begin_close c x))
        Served
unfolding if_made
begin_close-Served clock id c v = elim (Bool-cases (ltb id (length c.listener.made))) [
  | inr unmade ↦ rw unmade (record { steady = v.steady; accepted_ids = v.accepted_ids })
  | inl made ↦ rw made (
      Returns-bind (close_begun clock id c.listener) _ (Begun id c.listener) Served
        (close_begun-Begun clock id c.listener (ground arith) v.steady)
        λ y b.
          let called =
            Begun-Called id c.listener y (ground arith)
              (Steady-mono {pending' = λ a. is_in a (add_some y.0 c.closing) ≡ true} c.listener
                (λ a. is_in-add_some a y.0 c.closing) (λ k s. s) v.steady)
              b (λ a. is_in-added a y.0 c.closing) in
          let same : passed c.listener ≡ passed y.1 =
            omega (arith, called.size, ap length called.accepts) in
          record { steady = called.steady; accepted_ids = v.accepted_ids ∙ ap (range 0) same })
]

close_session-same :
    (a : ℕ) (l : Listener)
    → ((close_session a l).1.made ≡ l.made) × ((close_session a l).1.accepts ≡ l.accepts)
unfolding close_session
close_session-same a l = by_slot (lookup a l.sessions)
  where
    by_slot :
        (o : Option ℕ)
        → let l' =
            (elim o as (λ o. Bool × Listener) [
              | none ↦ (false, l)
              | some id ↦ (true, record l { sessions = remove a l.sessions })
            ]).1 in
          (l'.made ≡ l.made) × (l'.accepts ≡ l.accepts)
    by_slot none = (refl, refl)
    by_slot (some id) = (refl, refl)

end_close-Served : (a : ℕ) (c : Course) → Served c → Served (end_close a c)
unfolding end_close
end_close-Served a c v =
    let kept = close_session-same a c.listener in
    let same : passed c.listener ≡ passed (close_session a c.listener).1 =
      omega (arith, ap length kept.0, ap length kept.1) in
    record {
      steady =
          close_session-Steady a c.listener v.steady (λ b. is_in-take_out a b c.closing)
            (λ id. is_in-add_some id (lookup a c.listener.sessions) c.struck)
            (λ id. is_in-added id (lookup a c.listener.sessions) c.struck);
      accepted_ids = v.accepted_ids ∙ ap (range 0) same;
    }

pub end_close_if-Served :
    (b : Bool) (a : ℕ) (c : Course) → Served c → Served (if b then end_close a c else c)
end_close_if-Served true a c v = end_close-Served a c v
end_close_if-Served false a c v = v
