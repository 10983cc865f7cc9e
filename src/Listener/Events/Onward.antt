-- ===== src/Listener/Events/Onward.antt =====
-- What an event may do to a listener: it stays in order, and the sessions accepted are the next
-- ones.
use rudp_go.Common.{
  ℕ, suc, ◌+◌, ◌-◌, ◌<◌, ◌≡◌, refl, sym, ap, ◌∙◌, List, [], ◌∷◌, Bool, true, false, Bool-cases, inl,
  inr, Option, none, some, length, ltb, if◌then◌else◌, Outcome, Returns, arith,
}
use rudp_go.Listener.{
  Listener, close_listener, Choice, timer_ended, session_came, socket_failed, listener_died,
  accepted, accept_timed_out, accept_failed, accept_closed, accept_rudp,
}
use rudp_go.Listener.Steady.{range, Steady}
use rudp_go.Listener.Closing.{Called}
use rudp_go.Listener.Events.{after_accept, if_made}

-- The number of sessions that have left the queue.
abbrev pub passed : Listener → ℕ
passed l = length l.made - length l.accepts

module _ (pending struck : ℕ → Type 0) where
  -- The listener is in order, and the sessions accepted are the next ones.
  pub record Onward (l : Listener) (x : List ℕ × Listener) : Type 0 where
    pub steady : Steady pending struck x.1
    pub given : x.0 ≡ range (passed l) (length x.0)
    pub on : passed x.1 ≡ passed l + length x.0

  pub none_given :
      (l l' : Listener)
      → Steady pending struck l
      → Steady pending struck l'
      → length l'.made + length l.accepts ≡ length l.made + length l'.accepts
      → Onward l ([], l')
  none_given l l' v v' e = record {
    steady = v';
    given = refl;
    on = omega (arith, v.enough, v'.enough);
  }

  pub same_counts :
      (l l' : Listener)
      → Steady pending struck l
      → Steady pending struck l'
      → length l'.made ≡ length l.made
      → l'.accepts ≡ l.accepts
      → Onward l ([], l')
  same_counts l l' v v' e e' = none_given l l' v v' (omega (arith, ap length e'))

  pub if_made-Called :
      (id : ℕ) (call : Outcome Listener) (l : Listener)
      → Steady pending struck l
      → (id < length l.made → Returns call (Called pending struck id l))
      → Returns (if_made id call l l) (Called pending struck id l)
  unfolding if_made
  if_made-Called id call l v h = elim (Bool-cases (ltb id (length l.made))) [
    | inl e ↦ rw e (h (ground arith))
    | inr e ↦ rw e (record {
      steady = v;
      apart = λ other e' differs. refl;
      size = refl;
      remotes = λ other. refl;
      accepts = refl;
    })
  ]

  abbrev head_or : ℕ → List ℕ → ℕ
  head_or d [] = d
  head_or d (x ∷ xs) = x

  abbrev tail : List ℕ → List ℕ
  tail [] = []
  tail (x ∷ xs) = xs

  -- A session taken off the queue.
  taken-Onward :
      (l : Listener) (id : ℕ) (rest : List ℕ)
      → l.accepts ≡ id ∷ rest
      → Steady pending struck l
      → Onward l (id ∷ [], record l { accepts = rest })
  taken-Onward l id rest e v =
      let size : length l.accepts ≡ suc (length rest) = omega (arith, ap length e) in
      let queue : id ∷ rest ≡ range (passed l) (suc (length rest)) =
        sym e ∙ v.queue ∙ ap (range (passed l)) size in
      let first : id ≡ passed l = ap (head_or 0) queue in
      let later : suc (passed l) ≡ length l.made - length rest = omega (arith, v.enough) in
      record {
        steady = record {
          sound = v.sound;
          short = v.short;
          room = omega (arith, v.room);
          exact = record {
            inside = v.exact.inside;
            listed = v.exact.listed;
            living = v.exact.living;
          };
          enough = omega (arith, v.enough);
          queue = ap tail queue ∙ ap (λ b. range b (length rest)) later;
        };
        given = ap (λ k. k ∷ []) first;
        on = omega (arith, v.enough);
      }

  unmoved : (l : Listener) → Steady pending struck l → Onward l ([], l)
  unmoved l v = none_given l l v v refl

  pub accept_rudp-Onward :
      (c : Choice) (l : Listener)
      → Steady pending struck l
      → Onward l (after_accept (accept_rudp c l) l)
  unfolding accept_rudp after_accept
  accept_rudp-Onward timer_ended l v = by_deadline l.read_ddl
    where
      by_deadline :
          (d : Option ℕ)
          → Onward l (after_accept (elim d [ none ↦ none | some t ↦ some (accept_timed_out, l) ]) l)
      by_deadline none = unmoved l v
      by_deadline (some t) = unmoved l v
  accept_rudp-Onward session_came l v = by_queue l.accepts refl
    where
      by_queue :
          (queue : List ℕ)
          → l.accepts ≡ queue
          → Onward l (
              after_accept
                (elim queue [
                  | [] ↦ none
                  | id ∷ rest ↦ some (accepted id, record l { accepts = rest })
                ])
                l)
      by_queue [] e = unmoved l v
      by_queue (id ∷ rest) e = taken-Onward l id rest e v
  accept_rudp-Onward socket_failed l v = by_error l.read_error
    where
      by_error :
          (e : Option ℕ)
          → Onward l (after_accept (elim e [ none ↦ none | some x ↦ some (accept_failed x, l) ]) l)
      by_error none = unmoved l v
      by_error (some x) = unmoved l v
  accept_rudp-Onward listener_died l v = by_death l.died
    where
      by_death :
          (b : Bool) → Onward l (after_accept (if b then some (accept_closed, l) else none) l)
      by_death true = unmoved l v
      by_death false = unmoved l v

  status-Steady :
      (l : Listener) (died conn_closed : Bool)
      → Steady pending struck l
      → Steady pending struck (record l { died = died; conn_closed = conn_closed })
  status-Steady l died conn_closed v = record {
    sound = v.sound;
    short = v.short;
    room = v.room;
    exact = record { inside = v.exact.inside; listed = v.exact.listed; living = v.exact.living };
    enough = v.enough;
    queue = v.queue;
  }

  pub close_listener-Onward :
      (l : Listener) → Steady pending struck l → Onward l ([], (close_listener l).1)
  unfolding close_listener
  close_listener-Onward l v = by_death l.died
    where
      conn_closed : Bool
      conn_closed = if l.own_conn then true else l.conn_closed

      by_death :
          (b : Bool)
          → Onward l (
            [],
            (if◌then◌else◌ {A = Bool × Listener} b
                (false, l)
                (true, record l { died = true; conn_closed = conn_closed })).1,
          )
      by_death true = unmoved l v
      by_death false = none_given l _ v (status-Steady l true conn_closed v) refl
