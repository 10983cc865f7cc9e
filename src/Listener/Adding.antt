-- ===== src/Listener/Adding.antt =====
-- listener.go:101-112, a new session of a listener.
use mathlib.Core.Path.{subst}
use rudp_go.Common.{
  ℕ, zero, suc, ◌+◌, ◌-◌, ◌≤◌, ◌<◌, ◌≡◌, ◌≢◌, ◌⊎◌, refl, sym, ap, ◌∙◌, List, [], ◌∷◌, ◌++◌, Bool,
  true, false, Option, some, length, length-append, All-append, All-mono, entry-append, entry-last,
  Returns, Returns-bind, Returns-IfDone, ltb, ◌==◌, Bool-cases, inl, inr, ==→eq, eq→==, arith,
}
use rudp_go.Rudp.{World, mtu_limit}
use rudp_go.Session.{Session, rudp_input}
use rudp_go.Session.Sound.{Sound, rudp_input-Sound}
use rudp_go.Session.Living.{SameLife, rudp_input-life}
use rudp_go.Session.Opening.{new_udp_session}
use rudp_go.Session.Opening.Sound.{new_udp_session-Sound}
use rudp_go.Listener.{Made, Listener, lookup, remove, add_session, if_room, accept_backlog}
use rudp_go.Listener.Slots.{lookup-cons-same, lookup-cons-other, lookup-remove-other, All-remove}
use rudp_go.Listener.Steady.{no_session, at_id, range, IsSound, IsLive, IsWithin, Steady, map_left}

range-append : (start n : ℕ) → range start (suc n) ≡ range start n ++ (start + n) ∷ []
range-append start zero = ap (λ k. k ∷ []) (omega arith)
range-append start (suc n) =
    let e : suc start + n ≡ start + suc n = omega arith in
    ap (◌∷◌ start) (range-append (suc start) n ∙ ap (λ k. range (suc start) n ++ k ∷ []) e)

some_same : {a b : ℕ} → Option.some a ≡ some b → a ≡ b
some_same e = ground arith

-- What a packet from `from` may do to a listener: the sessions of other addresses stay as they are,
-- and one session at most is new.
pub record Handled (pending struck : ℕ → Type 0) (from : ℕ) (l l' : Listener) : Type 0 where
  pub steady : Steady pending struck l'
  pub apart :
      (other : ℕ)
      → other < length l.made
      → (at_id l other).remote ≢ from
      → at_id l' other ≡ at_id l other
  pub size : length l.made ≤ length l'.made
  pub one_more : length l'.made ≤ suc (length l.made)
  pub passed : length l'.made + length l.accepts ≡ length l.made + length l'.accepts

pub unchanged :
    {pending struck : ℕ → Type 0} (from : ℕ) (l : Listener)
    → Steady pending struck l
    → Handled pending struck from l l
unchanged from l v = record {
  steady = v;
  apart = λ other e h. refl;
  size = omega arith;
  one_more = omega arith;
  passed = refl;
}

-- No live session has the address.
abbrev pub IsFree : ℕ → Listener → Type 0
IsFree from l = (k : ℕ) → lookup from l.sessions ≡ some k → IsLive l k → ⊥

module _ {pending struck : ℕ → Type 0} (l : Listener) (from : ℕ) (s : Session)
    (v : Steady pending struck l) (free : IsFree from l) where
  abbrev with_new : Listener
  with_new = record l {
    made = l.made ++ record { session = s; remote = from } ∷ [];
    world = s.world;
    sessions = record { address = from; id = length l.made } ∷ remove from l.sessions;
    accepts = l.accepts ++ length l.made ∷ [];
  }

  abbrev new_made : Made
  new_made = record { session = s; remote = from }

  longer : length with_new.made ≡ suc (length l.made)
  longer = omega (arith, length-append l.made (new_made ∷ []))

  at_id-old : (other : ℕ) → other < length l.made → at_id with_new other ≡ at_id l other
  at_id-old other e = entry-append no_session l.made _ other e

  at_id-new : at_id with_new (length l.made) ≡ new_made
  at_id-new = entry-last no_session l.made new_made

  listed_new :
      s.has_died ≡ false
      → (address other : ℕ) → lookup address with_new.sessions ≡ some other
      → (other < length with_new.made)
        × ((at_id with_new other).remote ≡ address)
        × (IsLive with_new other ⊎ pending address)
  listed_new alive address other e = elim (Bool-cases (from == address)) [
    | inl e' ↦
        let same : from ≡ address = ==→eq from address e' in
        let first =
          subst (λ a. lookup a with_new.sessions ≡ some (length l.made)) same
            (lookup-cons-same from (length l.made) (remove from l.sessions)) in
        let id : length l.made ≡ other = some_same (sym first ∙ e) in
        subst
          (λ k.
            (k < length with_new.made)
            × ((at_id with_new k).remote ≡ address)
            × (IsLive with_new k ⊎ pending address))
          id
          (
            omega (arith, longer),
            ap (λ (m : Made). m.remote) at_id-new ∙ same,
            inl (ap (λ (m : Made). m.session.has_died) at_id-new ∙ alive),
          )
    | inr e' ↦
        let differs : from ≢ address =
          λ same. let hit = subst (λ a. (from == a) ≡ true) same (eq→== from from refl) in cc in
        let old = v.exact.listed address other (
          sym (lookup-remove-other address from l.sessions differs)
          ∙ sym (lookup-cons-other address from (length l.made) (remove from l.sessions) differs)
          ∙ e) in
        let same = at_id-old other old.0 in
        (
          omega (arith, longer, old.0),
          ap (λ (m : Made). m.remote) same ∙ old.1,
          map_left (λ alive. ap (λ (m : Made). m.session.has_died) same ∙ alive) old.2,
        )
  ]

  living_new :
      (other : ℕ)
      → other < length with_new.made
      → IsLive with_new other
      → (lookup (at_id with_new other).remote with_new.sessions ≡ some other) ⊎ struck other
  living_new other e alive = elim (Bool-cases (other == length l.made)) [
    | inl e' ↦
        let same : length l.made ≡ other = sym (==→eq other (length l.made) e') in
        inl (
          subst (λ k. lookup (at_id with_new k).remote with_new.sessions ≡ some k) same
            (ap (λ (m : Made). lookup m.remote with_new.sessions) at_id-new
              ∙ lookup-cons-same from (length l.made) (remove from l.sessions)))
    | inr e' ↦
        let inside : other < length l.made = ground (arith, longer) in
        let same = at_id-old other inside in
        let lives : IsLive l other = sym (ap (λ (m : Made). m.session.has_died) same) ∙ alive in
        map_left
          (λ old.
            let differs : from ≢ (at_id l other).remote =
              λ e''. free other (ap (λ a. lookup a l.sessions) e'' ∙ old) lives in
            ap (λ (m : Made). lookup m.remote with_new.sessions) same
            ∙ lookup-cons-other (at_id l other).remote from (length l.made) (remove from l.sessions)
                differs
            ∙ lookup-remove-other (at_id l other).remote from l.sessions differs
            ∙ old)
          (v.exact.living other inside lives)
  ]

  queued_new :
      with_new.accepts
      ≡ range (length with_new.made - length with_new.accepts) (length with_new.accepts)
  queued_new =
      let n = length l.made in
      let k = length l.accepts in
      let count : length with_new.accepts ≡ suc k =
        omega (arith, length-append l.accepts (n ∷ [])) in
      let start : length with_new.made - length with_new.accepts ≡ n - k = omega (arith, longer) in
      let next : (n - k) + k ≡ n = omega (arith, v.enough) in
      subst (λ c. with_new.accepts ≡ range (length with_new.made - length with_new.accepts) c)
        (sym count)
        (subst (λ b. with_new.accepts ≡ range b (suc k)) (sym start)
          (ap (λ q. q ++ n ∷ []) v.queue
            ∙ ap (λ m. range (n - k) k ++ m ∷ []) (sym next)
            ∙ sym (range-append (n - k) k)))

  with_new-Handled :
      length l.accepts < accept_backlog
      → Sound 1400 s
      → s.has_died ≡ false
      → Handled pending struck from l with_new
  with_new-Handled room sound alive = record {
    steady = record {
      sound = All-append IsSound l.made (new_made ∷ []) v.sound (sound, tt);
      short = sound.packets;
      room = omega (arith, length-append l.accepts (length l.made ∷ []));
      exact = record {
        inside = (
          omega (arith, longer),
          All-remove (IsWithin (length with_new.made)) from l.sessions (
              All-mono (IsWithin (length l.made)) (IsWithin (length with_new.made))
                (λ slot h. omega (arith, longer)) l.sessions v.exact.inside),
        );
        listed = listed_new alive;
        living = living_new;
      };
      enough = omega (arith, longer, v.enough, length-append l.accepts (length l.made ∷ []));
      queue = queued_new;
    };
    apart = λ other e h. at_id-old other e;
    size = omega (arith, longer);
    one_more = omega (arith, longer);
    passed = omega (arith, longer, length-append l.accepts (length l.made ∷ []));
  }

-- A session that is new is alive.
new_alive :
    (conv : ℕ) (ciphered : Bool) (w : World)
    → (new_udp_session conv ciphered true w).has_died ≡ false
unfolding new_udp_session
new_alive conv ciphered w = refl

pub if_room-Handled :
    {pending struck : ℕ → Type 0} (clock : ℕ → ℕ) (conv : ℕ) (packet : List ℕ) (from : ℕ)
    (l : Listener)
    → length packet ≤ mtu_limit
    → Steady pending struck l
    → IsFree from l
    → Returns (if_room clock conv packet from l) (Handled pending struck from l)
unfolding if_room add_session
if_room-Handled {pending} {struck} clock conv packet from l small v free =
    elim (Bool-cases (ltb (length l.accepts) accept_backlog)) [
      | inr full ↦ rw full (unchanged from l v)
      | inl room ↦ rw room (
          let fresh = new_udp_session conv l.ciphered true l.world in
          Returns-bind (rudp_input clock packet fresh) _ (λ s. Sound 1400 s × SameLife fresh s)
            (Handled pending struck from l)
            (Returns-IfDone (rudp_input clock packet fresh) (Sound 1400) (SameLife fresh)
              (rudp_input-Sound clock 1400 packet fresh small
                (new_udp_session-Sound conv l.ciphered true l.world v.short))
              (rudp_input-life clock packet fresh))
            (λ s p.
              with_new-Handled l from s v free (ground arith) p.0
                (p.1 ∙ new_alive conv l.ciphered l.world)))
    ]
