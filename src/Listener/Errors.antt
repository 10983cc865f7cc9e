-- ===== src/Listener/Errors.antt =====
-- listener.go, notifyReadError and the sessions that hear of the error.
use mathlib.Core.Path.{subst}
use rudp_go.Common.{
  ℕ, ◌-◌, ◌<◌, ◌≡◌, refl, sym, ap, ◌∙◌, List, [], ◌∷◌, Option, none, some, length, All, All-entry,
  entries-All, All-mono, entry, set, length-set, entry-set, ◌==◌, Bool-cases, inl, inr, ==→eq,
  index-done, done, ◌>>=◌, Returns, Returns-bind, Returns-mono, arith,
}
use rudp_go.Session.{notify_read_error}
use rudp_go.Session.Sound.{same-Sound}
use rudp_go.Listener.{Made, Slot, Listener, lookup, notify_sessions, listener_read_error}
use rudp_go.Listener.Steady.{no_session, range, IsSound, IsWithin, Steady, map_left}

abbrev notified : ℕ → Made → Made
notified err m = record m { session = notify_read_error err m.session }

notified-IsSound : (err : ℕ) (m : Made) → IsSound m → IsSound (notified err m)
unfolding notify_read_error
notified-IsSound err m h = same-Sound 1400 m.session _ refl refl refl refl h

notified_life : (err : ℕ) (m : Made) → (notified err m).session.has_died ≡ m.session.has_died
unfolding notify_read_error
notified_life err m = refl

-- The sessions `made'` have the addresses and the lives of `made`, and are sound if those are.
pub record Kept (made made' : List Made) : Type 0 where
  pub size : length made' ≡ length made
  pub remotes : (k : ℕ) → (entry no_session made' k).remote ≡ (entry no_session made k).remote
  pub lives :
      (k : ℕ)
      → (entry no_session made' k).session.has_died ≡ (entry no_session made k).session.has_died
  pub sound : (k : ℕ) → IsSound (entry no_session made k) → IsSound (entry no_session made' k)

one_notified :
    (err id : ℕ) (made : List Made)
    → id < length made
    → Kept made (set made id (notified err (entry no_session made id)))
one_notified err id made inside =
    let m = entry no_session made id in
    let seen = λ (k : ℕ). entry-set no_session made id k (notified err m) inside in
    record {
      size = length-set made id (notified err m);
      remotes = λ k. elim (Bool-cases (id == k)) [
        | inl e ↦
            ap (λ (x : Made). x.remote) (rw e at (seen k))
            ∙ ap (λ j. (entry no_session made j).remote) (==→eq id k e)
        | inr e ↦ ap (λ (x : Made). x.remote) (rw e at (seen k))
      ];
      lives = λ k. elim (Bool-cases (id == k)) [
        | inl e ↦
            ap (λ (x : Made). x.session.has_died) (rw e at (seen k))
            ∙ notified_life err m
            ∙ ap (λ j. (entry no_session made j).session.has_died) (==→eq id k e)
        | inr e ↦ ap (λ (x : Made). x.session.has_died) (rw e at (seen k))
      ];
      sound = λ k h. elim (Bool-cases (id == k)) [
        | inl e ↦ subst IsSound (sym (rw e at (seen k))) (
            notified-IsSound err m
              (subst (λ j. IsSound (entry no_session made j)) (sym (==→eq id k e)) h))
        | inr e ↦ subst IsSound (sym (rw e at (seen k))) h
      ];
    }

Kept-trans : (a b c : List Made) → Kept a b → Kept b c → Kept a c
Kept-trans a b c h k = record {
  size = k.size ∙ h.size;
  remotes = λ j. k.remotes j ∙ h.remotes j;
  lives = λ j. k.lives j ∙ h.lives j;
  sound = λ j s. k.sound j (h.sound j s);
}

notify_sessions-Kept :
    (err : ℕ) (slots : List Slot) (made : List Made)
    → All (IsWithin (length made)) slots
    → Returns (notify_sessions err slots made) (Kept made)
unfolding notify_sessions
notify_sessions-Kept err [] made h = record {
  size = refl;
  remotes = λ k. refl;
  lives = λ k. refl;
  sound = λ k s. s;
}
notify_sessions-Kept err (slot ∷ slots) made h =
    let first = one_notified err slot.id made h.0 in
    let later = set made slot.id (notified err (entry no_session made slot.id)) in
    rw (index-done no_session made slot.id h.0) (
      Returns-mono (notify_sessions err slots later) (Kept later) (Kept made)
        (notify_sessions-Kept err slots later (
          All-mono (IsWithin (length made)) (IsWithin (length later))
            (λ s e. omega (arith, first.size)) slots h.1))
        (λ made' k. Kept-trans made later made' first k))

with_made-Steady :
    {pending struck : ℕ → Type 0} (l : Listener) (made : List Made) (err : Option ℕ)
    → Steady pending struck l
    → Kept l.made made
    → Steady pending struck (record l { read_error = err; made = made })
with_made-Steady l made err v k = record {
  sound =
      entries-All IsSound no_session made
        (λ i e. k.sound i (All-entry IsSound no_session l.made i (omega (arith, k.size)) v.sound));
  short = v.short;
  room = v.room;
  exact = record {
    inside = subst (λ n. All (IsWithin n) l.sessions) (sym k.size) v.exact.inside;
    listed = λ from id e.
        let old = v.exact.listed from id e in
        (
          omega (arith, old.0, k.size),
          k.remotes id ∙ old.1,
          map_left (λ alive. k.lives id ∙ alive) old.2,
        );
    living = λ id e alive.
        map_left (λ there. ap (λ r. lookup r l.sessions) (k.remotes id) ∙ there)
          (v.exact.living id (omega (arith, k.size)) (sym (k.lives id) ∙ alive));
  };
  enough = omega (arith, k.size, v.enough);
  queue = v.queue ∙ ap (λ n. range (n - length l.accepts) (length l.accepts)) (sym k.size);
}

-- A call that leaves the queue and the number of sessions as they are.
pub record Alike (pending struck : ℕ → Type 0) (l l' : Listener) : Type 0 where
  pub steady : Steady pending struck l'
  pub size : length l'.made ≡ length l.made
  pub accepts : l'.accepts ≡ l.accepts

pub listener_read_error-Alike :
    {pending struck : ℕ → Type 0} (err : ℕ) (l : Listener)
    → Steady pending struck l
    → Returns (listener_read_error err l) (Alike pending struck l)
unfolding listener_read_error
listener_read_error-Alike {pending} {struck} err l v = by_error l.read_error refl
  where
    by_error :
        (e : Option ℕ)
        → l.read_error ≡ e
        → Returns
            (elim e [
              | some x ↦ done l
              | none ↦ notify_sessions err l.sessions l.made >>= λ made.
                  done (record l { read_error = some err; made = made })
            ])
            (Alike pending struck l)
    by_error (some x) e = record { steady = v; size = refl; accepts = refl }
    by_error none e =
        Returns-bind (notify_sessions err l.sessions l.made) _ (Kept l.made)
          (Alike pending struck l) (notify_sessions-Kept err l.sessions l.made v.exact.inside)
          (λ made k. record {
            steady = with_made-Steady l made (some err) v k;
            size = k.size;
            accepts = refl;
          })
