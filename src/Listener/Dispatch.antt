-- ===== src/Listener/Dispatch.antt =====
-- listener.go, packetInput: which sessions a packet may change.
use mathlib.Core.Path.{subst}
use rudp_go.Common.{
  ℕ, ◌+◌, ◌≤◌, ◌<◌, ◌≡◌, refl, sym, ap, ◌∙◌, List, not, ◌&&◌, Option, none, some, length,
  length-take, length-drop, take, drop, Returns, Returns-bind, Returns-mono, Returns-if, leb, ◌==◌,
  Bool-cases, inl, inr, index-done, arith,
}
use rudp_go.Wire.{overhead, decode_uint32}
use rudp_go.Wire.Reading.{decode_uint32-Reads}
use rudp_go.Rudp.{mtu_limit}
use rudp_go.Session.{rudp_input}
use rudp_go.Session.Sound.{rudp_input-Sound}
use rudp_go.Session.Living.{rudp_input-life}
use rudp_go.Listener.{
  Listener, lookup, on_session, close_made, if_room, known_input, dispatch_packet, listener_input,
  sn_offset,
}
use rudp_go.Listener.Steady.{no_session, at_id, Steady}
use rudp_go.Listener.Closing.{
  shared, shared-Sound, Called, on_session-Called, Closed, close_made-Closed,
}
use rudp_go.Listener.Adding.{Handled, IsFree, unchanged, if_room-Handled}

-- The session `id` has the address `from`.
Called-Handled :
    {pending struck : ℕ → Type 0} (from id : ℕ) (l l' : Listener)
    → (at_id l id).remote ≡ from
    → Called pending struck id l l'
    → Handled pending struck from l l'
Called-Handled from id l l' e c = record {
  steady = c.steady;
  apart = λ other inside h.
      c.apart other inside (λ same. h (sym (ap (λ k. (at_id l k).remote) same) ∙ e));
  size = omega (arith, c.size);
  one_more = omega (arith, c.size);
  passed = omega (arith, c.size, ap length c.accepts);
}

-- One call and then another.
Handled-trans :
    {pending struck : ℕ → Type 0} (from : ℕ) (l l' l'' : Listener)
    → length l'.made ≡ length l.made
    → ((other : ℕ) → other < length l.made → (at_id l' other).remote ≡ (at_id l other).remote)
    → Handled pending struck from l l'
    → Handled pending struck from l' l''
    → Handled pending struck from l l''
Handled-trans from l l' l'' size remotes a b = record {
  steady = b.steady;
  apart = λ other e h.
      b.apart other (omega (arith, size)) (λ s. h (sym (remotes other e) ∙ s)) ∙ a.apart other e h;
  size = omega (arith, size, b.size);
  one_more = omega (arith, size, b.one_more);
  passed = omega (arith, a.passed, b.passed);
}

known_input-Handled :
    {pending struck : ℕ → Type 0} (clock : ℕ → ℕ) (id conv sn : ℕ) (packet : List ℕ) (from : ℕ)
    (l : Listener)
    → length packet ≤ mtu_limit
    → Steady pending struck l
    → lookup from l.sessions ≡ some id
    → Returns (known_input clock id conv sn packet from l) (Handled pending struck from l)
unfolding known_input
known_input-Handled {pending} {struck} clock id conv sn packet from l small v e =
    let old = v.exact.listed from id e in
    let here = ap (λ a. lookup a l.sessions) old.1 ∙ e in
    rw (index-done no_session l.made id old.0) (
      Returns-if (conv == (at_id l id).session.rudp.conv) _ _ (Handled pending struck from l)
        (Returns-mono (on_session id (rudp_input clock packet) l) (Called pending struck id l)
          (Handled pending struck from l)
          (on_session-Called id (rudp_input clock packet) l old.0 v
            (rudp_input-Sound clock 1400 packet (shared l id) small (shared-Sound l id old.0 v))
            (rudp_input-life clock packet (shared l id)))
          (λ l' c. Called-Handled from id l l' old.1 c))
        (Returns-if (sn == 0) _ _ (Handled pending struck from l)
          (Returns-bind (close_made clock id l) _ (Closed pending struck id l)
            (Handled pending struck from l) (close_made-Closed clock id l old.0 v here)
            (λ l' c.
              Returns-mono (if_room clock conv packet from l') (Handled pending struck from l')
                (Handled pending struck from l)
                (if_room-Handled clock conv packet from l' small c.steady_call.steady
                  (subst (λ a. IsFree a l') old.1 c.freed))
                (λ l'' h.
                  Handled-trans from l l' l'' c.steady_call.size
                    (λ other inside. c.steady_call.remotes other)
                    (Called-Handled from id l l' old.1 c.steady_call) h)))
          (unchanged from l v)))

-- A packet of at most 1500 bytes from `from`, with any content, comes to a listener in order, but
-- for closeSessions still to come for any addresses and for any sessions that are not in the map:
-- packetInput returns, and the listener is in order again, but for the same; the sessions of other
-- addresses are as they were, and at most one session is new. So with none of those the map is
-- exact again.
pub listener_input_lem :
    {pending struck : ℕ → Type 0} (clock : ℕ → ℕ) (packet : List ℕ) (from : ℕ) (l : Listener)
    → length packet ≤ mtu_limit
    → Steady pending struck l
    → Returns (listener_input clock packet from l) (Handled pending struck from l)
unfolding listener_input dispatch_packet
listener_input_lem {pending} {struck} clock packet from l small v =
    elim (Bool-cases (not l.ciphered && leb overhead (length packet))) [
      | inr e ↦ rw e (unchanged from l v)
      | inl e ↦ rw e (
          let long : overhead ≤ length packet = ground arith in
          Returns-bind (decode_uint32 (take 4 packet)) _
            (λ x. length x.1 + 4 ≡ length (take 4 packet)) (Handled pending struck from l)
            (decode_uint32-Reads (take 4 packet) (omega (arith, length-take 4 packet)))
            (λ conv _.
              Returns-bind (decode_uint32 (drop sn_offset packet)) _
                (λ x. length x.1 + 4 ≡ length (drop sn_offset packet))
                (Handled pending struck from l)
                (decode_uint32-Reads (drop sn_offset packet)
                  (omega (arith, length-drop sn_offset packet)))
                (λ sn _. by_session conv.0 sn.0 (lookup from l.sessions) refl)))
    ]
  where
    by_session :
        (conv sn : ℕ) (o : Option ℕ)
        → lookup from l.sessions ≡ o
        → Returns
            (elim o [
              | none ↦ if_room clock conv packet from l
              | some id ↦ known_input clock id conv sn packet from l
            ])
            (Handled pending struck from l)
    by_session conv sn none e = if_room-Handled clock conv packet from l small v (λ k e' alive. cc)
    by_session conv sn (some id) e = known_input-Handled clock id conv sn packet from l small v e
