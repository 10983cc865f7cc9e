-- ===== src/Listener/Closing.antt =====
-- listener.go and sess.go: calls on a session of a listener, and its Close with closeSession.
use mathlib.Core.Path.{subst}
use rudp_go.Common.{
  ℕ, ◌-◌, ◌<◌, ◌≡◌, ◌≢◌, ◌⊎◌, refl, sym, ap, ◌∙◌, Bool, true, false, not, Option, none, some,
  length, All, All-entry, index-done, Outcome, Returns, Returns-bind, Returns-IfDone, IfDone,
  if◌then◌else◌, Bool-cases, inl, inr, ◌==◌, ==→eq, not_==→ne, arith,
}
use rudp_go.Session.{Session, close}
use rudp_go.Session.Sound.{Sound, close-Sound}
use rudp_go.Session.Living.{SameLife, HasClosed, close-life}
use rudp_go.Listener.{
  Made, Listener, lookup, remove, on_session, close_session, close_begun, close_rest, close_made,
}
use rudp_go.Listener.Slots.{lookup-remove-same, lookup-remove-other, All-remove}
use rudp_go.Listener.Steady.{
  no_session, at_id, range, IsSound, IsLive, IsWithin, Steady, with_session, at_id-same,
  at_id-other, remote_same, size_same, map_left, map_right, dead_here, with_dead-Steady, sound_all,
  with_session-Steady,
}

-- A session with what the sessions share.
abbrev pub shared : Listener → ℕ → Session
shared l id = record (at_id l id).session { world = l.world }

pub shared-Sound :
    {pending struck : ℕ → Type 0} (l : Listener) (id : ℕ)
    → id < length l.made
    → Steady pending struck l
    → Sound 1400 (shared l id)
shared-Sound l id inside v =
    let h = All-entry IsSound no_session l.made id inside v.sound in
    record {
      pooled = h.pooled;
      sized = h.sized;
      packets = v.short;
      queued = h.queued;
      sent = h.sent;
    }

-- The sessions other than `id` as they were.
abbrev pub IsApart : ℕ → Listener → Listener → Type 0
IsApart id l l' = (other : ℕ) → other < length l.made → id ≢ other → at_id l' other ≡ at_id l other

pub record Called (pending struck : ℕ → Type 0) (id : ℕ) (l l' : Listener) : Type 0 where
  pub steady : Steady pending struck l'
  pub apart : IsApart id l l'
  pub size : length l'.made ≡ length l.made
  pub remotes : (other : ℕ) → (at_id l' other).remote ≡ (at_id l other).remote
  pub accepts : l'.accepts ≡ l.accepts

-- The session `id` is exchanged.
called :
    {pending struck : ℕ → Type 0} (id : ℕ) (l : Listener) (s : Session)
    → id < length l.made
    → Steady pending struck (with_session id s l)
    → Called pending struck id l (with_session id s l)
called id l s inside v = record {
  steady = v;
  apart = λ other e differs. at_id-other l id s inside other differs;
  size = size_same l id s inside;
  remotes = remote_same l id s inside;
  accepts = refl;
}

pub on_session-Called :
    {pending struck : ℕ → Type 0} (id : ℕ) (call : Session → Outcome Session) (l : Listener)
    → id < length l.made
    → Steady pending struck l
    → Returns (call (shared l id)) (Sound 1400)
    → IfDone (call (shared l id)) (SameLife (shared l id))
    → Returns (on_session id call l) (Called pending struck id l)
unfolding on_session
on_session-Called {pending} {struck} id call l inside v h k =
    rw (index-done no_session l.made id inside) (
      Returns-bind (call (shared l id)) _ (λ s. Sound 1400 s × SameLife (shared l id) s)
        (Called pending struck id l)
        (Returns-IfDone (call (shared l id)) (Sound 1400) (SameLife (shared l id)) h k)
        (λ s p. called id l s inside (with_session-Steady l id s inside v p.0 p.1)))

-- The map without the session `id` of that address, which has ended.
module _ {pending struck : ℕ → Type 0} (l : Listener) (id : ℕ) (s : Session)
    (inside : id < length l.made) (v : Steady pending struck l)
    (here : lookup (at_id l id).remote l.sessions ≡ some id) where
  abbrev without : Listener
  without = record (with_session id s l) { sessions = remove (at_id l id).remote l.sessions }

  some_same : {a b : ℕ} → Option.some a ≡ some b → a ≡ b
  some_same e = ground arith

  listed_else :
      (from other : ℕ)
      → lookup from without.sessions ≡ some other
      → (other < length without.made)
        × ((at_id without other).remote ≡ from)
        × (IsLive without other ⊎ pending from)
  listed_else from other e =
      let apart : (at_id l id).remote ≢ from = λ e'.
        let gone =
          subst (λ k. lookup k without.sessions ≡ none) e'
            (lookup-remove-same (at_id l id).remote l.sessions) in
        cc in
      let old =
        v.exact.listed from other
          (sym (lookup-remove-other from (at_id l id).remote l.sessions apart) ∙ e) in
      let differs : id ≢ other = λ e'. apart (ap (λ k. (at_id l k).remote) e' ∙ old.1) in
      (
        omega (arith, size_same l id s inside, old.0),
        remote_same l id s inside other ∙ old.1,
        map_left
            (λ alive.
              ap (λ (m : Made). m.session.has_died) (at_id-other l id s inside other differs)
              ∙ alive)
            old.2,
      )

  living_else :
      s.has_died ≡ true
      → (other : ℕ) → other < length without.made
      → IsLive without other
      → (lookup (at_id without other).remote without.sessions ≡ some other) ⊎ struck other
  living_else dead other e alive' =
      let differs : id ≢ other = λ e'.
        let ended =
          subst (λ k. (at_id without k).session.has_died ≡ true) e'
            (ap (λ (m : Made). m.session.has_died) (at_id-same l id s inside) ∙ dead) in
        cc in
      let same = ap (λ (m : Made). m.session.has_died) (at_id-other l id s inside other differs) in
      map_left
        (λ old.
          let apart : (at_id l id).remote ≢ (at_id l other).remote =
            λ e'. differs (some_same (sym here ∙ ap (λ r. lookup r l.sessions) e' ∙ old)) in
          ap (λ r. lookup r without.sessions) (remote_same l id s inside other)
          ∙ lookup-remove-other (at_id l other).remote (at_id l id).remote l.sessions apart
          ∙ old)
        (v.exact.living other (omega (arith, size_same l id s inside)) (sym same ∙ alive'))

  without-Called : Sound 1400 s → s.has_died ≡ true → Called pending struck id l without
  without-Called sound dead = record {
    steady = record {
      sound = sound_all l id s inside v.sound sound;
      short = sound.packets;
      room = v.room;
      exact = record {
        inside = All-remove (IsWithin (length without.made)) (at_id l id).remote l.sessions (
            subst (λ n. All (IsWithin n) l.sessions) (sym (size_same l id s inside))
              v.exact.inside);
        listed = listed_else;
        living = living_else dead;
      };
      enough = omega (arith, size_same l id s inside, v.enough);
      queue =
          v.queue
          ∙ ap (λ n. range (n - length l.accepts) (length l.accepts))
              (sym (size_same l id s inside));
    };
    apart = λ other e differs. at_id-other l id s inside other differs;
    size = size_same l id s inside;
    remotes = remote_same l id s inside;
    accepts = refl;
  }

-- A whole Close of the session that the map has for its address, a first time or another: no live
-- session is there afterwards.
pub record Closed (pending struck : ℕ → Type 0) (id : ℕ) (l l' : Listener) : Type 0 where
  pub steady_call : Called pending struck id l l'
  pub freed : (k : ℕ) → lookup (at_id l id).remote l'.sessions ≡ some k → IsLive l' k → ⊥

close_session-removes :
    (address id : ℕ) (l : Listener)
    → lookup address l.sessions ≡ some id
    → (close_session address l).1 ≡ record l { sessions = remove address l.sessions }
unfolding close_session
close_session-removes address id l e = rw (close_session, e) refl

-- What Close makes of the listener before it comes to closeSession.
abbrev pub begun : ℕ → Listener → Bool × Session → Option ℕ × Listener
begun id l x = ((if x.0 then some (at_id l id).remote else none), with_session id x.1 l)

after_close :
    {pending struck : ℕ → Type 0} (id : ℕ) (l : Listener) (inside : id < length l.made)
    → Steady pending struck l
    → lookup (at_id l id).remote l.sessions ≡ some id
    → (x : Bool × Session) → Sound 1400 x.1
    → HasClosed (shared l id) x
    → Closed pending struck id l (close_rest (begun id l x))
unfolding close_rest
after_close {pending} {struck} id l inside v here x sound (dead, first) =
    elim (Bool-cases (at_id l id).session.has_died) [
      | inl d ↦
          let again : x.0 ≡ false = first ∙ ap not d in
          rw again (record {
            steady_call =
                called id l x.1 inside (with_session-Steady l id x.1 inside v sound (dead ∙ sym d));
            freed = λ k e alive.
                dead_here l id x.1 inside dead k (some_same l id x.1 inside v here (sym here ∙ e))
                  alive;
          })
      | inr d ↦
          let once : x.0 ≡ true = first ∙ ap not d in
          rw once (
            subst (Closed pending struck id l)
              (sym (close_session-removes (at_id l id).remote id (with_session id x.1 l) here))
              (record {
                steady_call = without-Called l id x.1 inside v here sound dead;
                freed =
                    λ k e alive. let gone = lookup-remove-same (at_id l id).remote l.sessions in cc;
              }))
    ]

-- The first part of Close: the session is exchanged for one that has died.
pub record Begun (id : ℕ) (l : Listener) (y : Option ℕ × Listener) : Type 0 where
  pub outcome : Bool × Session
  pub same : y ≡ begun id l outcome
  pub sound : Sound 1400 outcome.1
  pub ended : HasClosed (shared l id) outcome

pub close_begun-Begun :
    {pending struck : ℕ → Type 0} (clock : ℕ → ℕ) (id : ℕ) (l : Listener)
    → id < length l.made
    → Steady pending struck l
    → Returns (close_begun clock id l) (Begun id l)
unfolding close_begun
close_begun-Begun clock id l inside v = rw (index-done no_session l.made id inside) (
    Returns-bind (close clock (shared l id)) _ (λ x. Sound 1400 x.1 × HasClosed (shared l id) x)
      (Begun id l)
      (Returns-IfDone (close clock (shared l id)) (λ x. Sound 1400 x.1) (HasClosed (shared l id))
        (close-Sound clock 1400 (shared l id) (shared-Sound l id inside v))
        (close-life clock (shared l id)))
      (λ x p. record { outcome = x; same = refl; sound = p.0; ended = p.1 }))

pub close_made-Closed :
    {pending struck : ℕ → Type 0} (clock : ℕ → ℕ) (id : ℕ) (l : Listener)
    → id < length l.made
    → Steady pending struck l
    → lookup (at_id l id).remote l.sessions ≡ some id
    → Returns (close_made clock id l) (Closed pending struck id l)
unfolding close_made
close_made-Closed {pending} {struck} clock id l inside v here =
    Returns-bind (close_begun clock id l) _ (Begun id l) (Closed pending struck id l)
      (close_begun-Begun clock id l inside v)
      λ y b.
        subst (λ y. Closed pending struck id l (close_rest y)) (sym b.same)
          (after_close id l inside v here b.outcome b.sound b.ended)

-- The first part alone: the address that it gives, if any, is pending.
pub Begun-Called :
    {pending struck : ℕ → Type 0} (id : ℕ) (l : Listener) (y : Option ℕ × Listener)
    → id < length l.made
    → Steady pending struck l
    → Begun id l y
    → ((a : ℕ) → y.0 ≡ some a → pending a)
    → Called pending struck id l y.1
Begun-Called {pending} {struck} id l y inside v b due =
    subst (λ y. Called pending struck id l y.1) (sym b.same)
      (called id l b.outcome.1 inside (elim (Bool-cases (at_id l id).session.has_died) [
        | inl d ↦ with_session-Steady l id b.outcome.1 inside v b.sound (b.ended.0 ∙ sym d)
        | inr d ↦
            let once : b.outcome.0 ≡ true = b.ended.1 ∙ ap not d in
            let address : y.0 ≡ some (at_id l id).remote =
              ap (λ (y : Option ℕ × Listener). y.0) b.same ∙ rw once refl in
            with_dead-Steady l id b.outcome.1 inside v b.sound b.ended.0 (due _ address)
      ]))

-- closeSession for an address that was pending: what the map had there is struck.
pub close_session-Steady :
    {pending pending' struck struck' : ℕ → Type 0} (a : ℕ) (l : Listener)
    → Steady pending struck l
    → ((b : ℕ) → a ≢ b → pending b → pending' b)
    → ((id : ℕ) → struck id → struck' id)
    → ((id : ℕ) → lookup a l.sessions ≡ some id → struck' id)
    → Steady pending' struck' (close_session a l).1
unfolding close_session
close_session-Steady {pending} {pending'} {struck} {struck'} a l v f g h =
    by_slot (lookup a l.sessions) refl
  where
    left : Listener
    left = record l { sessions = remove a l.sessions }

    removed : Steady pending' struck' left
    removed = record {
      sound = v.sound;
      short = v.short;
      room = v.room;
      exact = record {
        inside = All-remove (IsWithin (length l.made)) a l.sessions v.exact.inside;
        listed = λ from id e. elim (Bool-cases (a == from)) [
          | inl e' ↦
              let gone =
                subst (λ k. lookup k left.sessions ≡ none) (==→eq a from e')
                  (lookup-remove-same a l.sessions) in
              absurd (cc)
          | inr e' ↦
              let apart = not_==→ne a from e' in
              let old =
                v.exact.listed from id (sym (lookup-remove-other from a l.sessions apart) ∙ e) in
              (old.0, old.1, map_right (f from apart) old.2)
        ];
        living = λ id e alive. elim (v.exact.living id e alive) [
          | inr s ↦ inr (g id s)
          | inl there ↦ elim (Bool-cases (a == (at_id l id).remote)) [
            | inl e' ↦
                inr (h id (ap (λ k. lookup k l.sessions) (==→eq a (at_id l id).remote e') ∙ there))
            | inr e' ↦ inl (
                lookup-remove-other (at_id l id).remote a l.sessions
                  (not_==→ne a (at_id l id).remote e')
                ∙ there)
          ]
        ];
      };
      enough = v.enough;
      queue = v.queue;
    }

    by_slot :
        (o : Option ℕ)
        → lookup a l.sessions ≡ o
        → Steady pending' struck'
            (elim o as (λ o. Bool × Listener) [
              | none ↦ (false, l)
              | some id ↦ (true, record l { sessions = remove a l.sessions })
            ]).1
    by_slot (some id) e = removed
    by_slot none e = record {
      sound = v.sound;
      short = v.short;
      room = v.room;
      exact = record {
        inside = v.exact.inside;
        listed = λ from id e'.
            let old = v.exact.listed from id e' in
            (
              old.0,
              old.1,
              map_right
                  (f from (λ same. let hit = subst (λ k. lookup k l.sessions ≡ none) same e in cc))
                  old.2,
            );
        living = λ id e' alive. map_right (g id) (v.exact.living id e' alive);
      };
      enough = v.enough;
      queue = v.queue;
    }
