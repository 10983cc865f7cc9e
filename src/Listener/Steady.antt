-- ===== src/Listener/Steady.antt =====
-- listener.go, the state of a listener between two calls.
use mathlib.Core.Path.{subst}
use rudp_go.Common.{
  ℕ, zero, suc, ◌-◌, ◌≤◌, ◌<◌, ◌≡◌, ◌≢◌, ◌⊎◌, refl, sym, ap, ◌∙◌, List, [], ◌∷◌, true, false, some,
  length, All, entry, set, length-set, entry-set, All-entry, entries-All, if◌then◌else◌, ◌==◌,
  eq→==, ne→not_==, Bool-cases, inl, inr, ==→eq, arith,
}
use rudp_go.Snmp.{new_snmp}
use rudp_go.Session.{Session}
use rudp_go.Session.Sound.{Sound, AllShort}
use rudp_go.Session.Opening.{new_udp_session}
use rudp_go.Session.Living.{SameLife}
use rudp_go.Listener.{Made, Slot, Listener, lookup, accept_backlog}

abbrev pub no_session : Made
no_session = record {
  session =
      new_udp_session 0 false true (record { clock_reads = 0; packets = []; snmp = new_snmp });
  remote = 0;
}

abbrev pub at_id : Listener → ℕ → Made
at_id l id = entry no_session l.made id

-- `n` numbers from `start` on.
abbrev pub range : ℕ → ℕ → List ℕ
range start zero = []
range start (suc n) = start ∷ range (suc start) n

abbrev pub IsSound : Made → Type 0
IsSound m = Sound 1400 m.session

abbrev pub IsLive : Listener → ℕ → Type 0
IsLive l id = (at_id l id).session.has_died ≡ false

abbrev pub IsWithin : ℕ → Slot → Type 0
IsWithin n slot = slot.id < n

-- The map holds the live sessions, each under its peer's address, and nothing else: but for a
-- session under an address that is `pending`, which may have died, and for a live session that is
-- `struck`, which may be missing.
pub record Exact (pending struck : ℕ → Type 0) (l : Listener) : Type 0 where
  pub listed :
      (from id : ℕ)
      → lookup from l.sessions ≡ some id
      → (id < length l.made) × ((at_id l id).remote ≡ from) × (IsLive l id ⊎ pending from)
  pub inside : All (IsWithin (length l.made)) l.sessions
  pub living :
      (id : ℕ)
      → id < length l.made
      → IsLive l id
      → (lookup (at_id l id).remote l.sessions ≡ some id) ⊎ struck id

-- The queue holds the sessions made last, in their order.
pub record Steady (pending struck : ℕ → Type 0) (l : Listener) : Type 0 where
  pub sound : All IsSound l.made
  pub short : AllShort 1400 l.world.packets
  pub room : length l.accepts ≤ accept_backlog
  pub exact : Exact pending struck l
  pub enough : length l.accepts ≤ length l.made
  pub queue : l.accepts ≡ range (length l.made - length l.accepts) (length l.accepts)

pub map_right : {A B C : Type 0} → (B → C) → A ⊎ B → A ⊎ C
map_right f (inl a) = inl a
map_right f (inr b) = inr (f b)

pub map_left : {A B C : Type 0} → (A → C) → A ⊎ B → C ⊎ B
map_left f (inl a) = inl (f a)
map_left f (inr b) = inr b

pub Steady-mono :
    {pending pending' struck struck' : ℕ → Type 0} (l : Listener)
    → ((a : ℕ) → pending a → pending' a)
    → ((id : ℕ) → struck id → struck' id)
    → Steady pending struck l
    → Steady pending' struck' l
Steady-mono l f g v = record {
  sound = v.sound;
  short = v.short;
  room = v.room;
  exact = record {
    inside = v.exact.inside;
    listed =
        λ from id e. let old = v.exact.listed from id e in (old.0, old.1, map_right (f from) old.2);
    living = λ id e alive. map_right (g id) (v.exact.living id e alive);
  };
  enough = v.enough;
  queue = v.queue;
}

-- Another session in place of the session `id`.
abbrev pub with_session : ℕ → Session → Listener → Listener
with_session id s l = record l {
  made = set l.made id (record (at_id l id) { session = s });
  world = s.world;
}

module _ (l : Listener) (id : ℕ) (s : Session) (inside : id < length l.made) where
  at_id-with_session :
      (other : ℕ)
      → at_id (with_session id s l) other
        ≡ (if id == other then record (at_id l id) { session = s } else at_id l other)
  at_id-with_session other =
      entry-set no_session l.made id other (record (at_id l id) { session = s }) inside

  pub at_id-same : at_id (with_session id s l) id ≡ record (at_id l id) { session = s }
  at_id-same = rw (eq→== id id refl) at (at_id-with_session id)

  pub at_id-other : (other : ℕ) → id ≢ other → at_id (with_session id s l) other ≡ at_id l other
  at_id-other other h = rw (ne→not_== id other h) at (at_id-with_session other)

  pub remote_same :
      (other : ℕ) → (at_id (with_session id s l) other).remote ≡ (at_id l other).remote
  remote_same other = elim (Bool-cases (id == other)) [
    | inl e ↦
        let same = ==→eq id other e in
        subst (λ k. (at_id (with_session id s l) k).remote ≡ (at_id l k).remote) same
          (ap (λ (m : Made). m.remote) at_id-same)
    | inr e ↦ ap (λ (m : Made). m.remote) (rw e at (at_id-with_session other))
  ]

  life_same :
      SameLife (at_id l id).session s
      → (other : ℕ)
      → (at_id (with_session id s l) other).session.has_died ≡ (at_id l other).session.has_died
  life_same h other = elim (Bool-cases (id == other)) [
    | inl e ↦
        let same = ==→eq id other e in
        subst (λ k. (at_id (with_session id s l) k).session.has_died ≡ (at_id l k).session.has_died)
          same (ap (λ (m : Made). m.session.has_died) at_id-same ∙ h)
    | inr e ↦ ap (λ (m : Made). m.session.has_died) (rw e at (at_id-with_session other))
  ]

  pub sound_all : All IsSound l.made → Sound 1400 s → All IsSound (with_session id s l).made
  sound_all h k = entries-All IsSound no_session _ (λ other e. elim (Bool-cases (id == other)) [
    | inl e' ↦
        subst (λ k. IsSound (at_id (with_session id s l) k)) (==→eq id other e')
          (subst IsSound (sym at_id-same) k)
    | inr e' ↦ subst IsSound (sym (rw e' at (at_id-with_session other))) (
        All-entry IsSound no_session l.made other
          (omega (arith, length-set l.made id (record (at_id l id) { session = s }))) h)
  ])

  pub size_same : length (with_session id s l).made ≡ length l.made
  size_same = length-set l.made id (record (at_id l id) { session = s })

  -- Another session in place of one changes the map's exactness as it changes the lives.
  with_session-Exact :
      {pending struck : ℕ → Type 0}
      → Steady pending struck l
      → Sound 1400 s
      → Exact pending struck (with_session id s l)
      → Steady pending struck (with_session id s l)
  with_session-Exact v k exact = record {
    sound = sound_all v.sound k;
    short = k.packets;
    room = v.room;
    exact = exact;
    enough = omega (arith, size_same, v.enough);
    queue = v.queue ∙ ap (λ n. range (n - length l.accepts) (length l.accepts)) (sym size_same);
  }

  -- A call on a session that leaves it as alive as it was.
  pub with_session-Steady :
      {pending struck : ℕ → Type 0}
      → Steady pending struck l
      → Sound 1400 s
      → SameLife (at_id l id).session s
      → Steady pending struck (with_session id s l)
  with_session-Steady v k h = with_session-Exact v k (record {
    inside = subst (λ n. All (IsWithin n) l.sessions) (sym size_same) v.exact.inside;
    listed = λ from other e.
        let old = v.exact.listed from other e in
        (
          omega (arith, size_same, old.0),
          remote_same other ∙ old.1,
          map_left (λ alive. life_same h other ∙ alive) old.2,
        );
    living = λ other e alive.
        map_left (λ there. ap (λ r. lookup r l.sessions) (remote_same other) ∙ there)
          (v.exact.living other (omega (arith, size_same)) (sym (life_same h other) ∙ alive));
  })

  pub dead_here :
      s.has_died ≡ true → (other : ℕ) → id ≡ other → IsLive (with_session id s l) other → ⊥
  dead_here dead other same alive =
      let ended =
        subst (λ k. (at_id (with_session id s l) k).session.has_died ≡ true) same
          (ap (λ (m : Made). m.session.has_died) at_id-same ∙ dead) in
      cc

  -- The end of a session whose address is pending.
  pub with_dead-Steady :
      {pending struck : ℕ → Type 0}
      → Steady pending struck l
      → Sound 1400 s
      → s.has_died ≡ true
      → pending (at_id l id).remote
      → Steady pending struck (with_session id s l)
  with_dead-Steady {pending} v k dead due = with_session-Exact v k (record {
    inside = subst (λ n. All (IsWithin n) l.sessions) (sym size_same) v.exact.inside;
    listed = λ from other e.
        let old = v.exact.listed from other e in
        (
          omega (arith, size_same, old.0),
          remote_same other ∙ old.1,
          elim (Bool-cases (id == other)) [
            | inl e' ↦
                let same = ==→eq id other e' in
                inr (subst pending (ap (λ j. (at_id l j).remote) same ∙ old.1) due)
            | inr e' ↦
                let kept =
                  ap (λ (m : Made). m.session.has_died) (rw e' at (at_id-with_session other)) in
                map_left (λ alive. kept ∙ alive) old.2
          ],
        );
    living = λ other e alive. elim (Bool-cases (id == other)) [
      | inl e' ↦ absurd (dead_here dead other (==→eq id other e') alive)
      | inr e' ↦
          let kept = ap (λ (m : Made). m.session.has_died) (rw e' at (at_id-with_session other)) in
          map_left (λ there. ap (λ r. lookup r l.sessions) (remote_same other) ∙ there)
            (v.exact.living other (omega (arith, size_same)) (sym kept ∙ alive))
    ];
  })
